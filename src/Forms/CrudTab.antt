-- ===== src/Forms/CrudTab.antt =====
-- apps/ui/src/pages/upstream and pages/dhcp: the tabs of the resolvers, the pools, the routes, the scopes
-- and the reservations have the same state and the same handlers, which are here for any of them.
pub mod Laws
use mantis_dns.Base.{String, Bool, true, false, Option, none, some, List, [], ◌∷◌, ◌++◌}
use mantis_dns.Base.Text.{Text, codes}
use mantis_dns.Base.Json.{Json}
use mantis_dns.Base.Platform.{Platform}
use mantis_dns.Api.Outcome.{Outcome, value, thrown}
use mantis_dns.Api.Cache.{QueryClient}
use mantis_dns.Api.Mutations.{MutationHook}
use mantis_dns.Api.Client.{Window, Exchange}
use mantis_dns.Api.Client.Run.{Network, run_mutation}

-- A notification: green for a success, red for an error.
pub data Notice : Type 0 where
  done : Text → Notice
  failed : Text → Notice

pub record Tab (T : Type 0) : Type 0 where
  pub edit_target : Option T
  pub modal_open : Bool
  pub notices : List Notice

-- What differs between the tabs.
pub record Entity (T V : Type 0) : Type 0 where
  pub create : V → MutationHook
  pub update : T → V → MutationHook
  pub created_message : Option Json → Text
  pub updated_message : T → Text
  -- What is told of an error with a message.
  pub error_message : Platform → Text → Text
  -- The deletion, and what is told of its success, if anything.
  pub remove : T → MutationHook
  pub removed_message : T → Option Text

abbrev pub notify : {T : Type 0} → Notice → Tab T → Tab T
notify n tab = record tab { notices = tab.notices ++ n ∷ [] }

unfoldable pub open_create : {T : Type 0} → Tab T → Tab T
open_create tab = record tab { edit_target = none; modal_open = true }

unfoldable pub open_edit : {T : Type 0} → T → Tab T → Tab T
open_edit t tab = record tab { edit_target = some t; modal_open = true }

abbrev pub save_mutation : {T V : Type 0} → Entity T V → Option T → V → MutationHook
save_mutation entity none v = entity.create v
save_mutation entity (some t) v = entity.update t v

abbrev pub save_message : {T V : Type 0} → Entity T V → Option T → Option Json → Text
save_message entity none answer = entity.created_message answer
save_message entity (some t) answer = entity.updated_message t

module _ (p : Platform) (net : Network) (w : Window) (qc : QueryClient) where
  -- `onSuccess` and `onError` of a save.
  unfoldable pub after_save : {T V : Type 0} → Entity T V → Outcome (Option Json) → Tab T → Tab T
  after_save entity (value answer) tab =
      record (notify (done (save_message entity tab.edit_target answer)) tab) { modal_open = false }
  after_save entity (thrown e) tab = notify (failed (entity.error_message p e)) tab

  unfoldable pub save :
      {T V : Type 0} → Entity T V → V → Tab T → qc.Cache → Exchange (Option Json) × Tab T × qc.Cache
  unfolding run_mutation after_save
  save entity v tab c =
      let after = run_mutation p net w qc (save_mutation entity tab.edit_target v) c in
      (after.0, after_save entity after.0.outcome tab, after.1)

  abbrev notify_some : {T : Type 0} → Option Text → Tab T → Tab T
  notify_some none tab = tab
  notify_some (some m) tab = notify (done m) tab

  -- `onConfirm` of `confirmDelete`.
  unfoldable pub confirm_delete :
      {T V : Type 0} → Entity T V → T → Tab T → qc.Cache → Exchange (Option Json) × Tab T × qc.Cache
  unfolding run_mutation
  confirm_delete entity t tab c =
      let after = run_mutation p net w qc (entity.remove t) c in
      (
        after.0,
        elim after.0.outcome [
          | value answer ↦ notify_some (entity.removed_message t) tab
          | thrown e ↦ notify (failed (entity.error_message p e)) tab
        ],
        after.1,
      )
