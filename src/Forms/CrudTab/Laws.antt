-- ===== src/Forms/CrudTab/Laws.antt =====
-- The saves of a tab.
use mantis_dns.Base.{
  Bool, true, false, not, ◌&&◌, Option, List, [], ◌∷◌, all, all-append, ◌≡◌, refl, arith,
}
use mantis_dns.Base.Json.{Json}
use mantis_dns.Base.Platform.{Platform}
use mantis_dns.Api.Outcome.{Outcome, value, thrown, is_value}
use mantis_dns.Api.Cache.{QueryClient, IsLawful, served}
use mantis_dns.Api.Queries.{QueryHook, query_spec}
use mantis_dns.Api.Coherence.{addresses}
use mantis_dns.Api.Client.{Window}
use mantis_dns.Api.Client.Run.{Network, run_mutation}
use mantis_dns.Api.Client.Laws.{run_mutation-addresses}
use mantis_dns.Forms.CrudTab.{
  Entity, Tab, Notice, done, failed, save_mutation, save_message, after_save, save,
}

abbrev pub is_done : Notice → Bool
is_done (done m) = true
is_done (failed m) = false

abbrev pub all_done : List Notice → Bool
all_done notices = all is_done notices

module _ (p : Platform) (net : Network) (w : Window) (qc : QueryClient) where
  after_save-closed :
      {T V : Type 0} (entity : Entity T V) (o : Outcome (Option Json)) (tab : Tab T)
      → let after = after_save p net w qc entity o tab in
        (after.modal_open ≡ (tab.modal_open && not (is_value o)))
        × (after.edit_target ≡ tab.edit_target)
        × (all_done after.notices ≡ (all_done tab.notices && is_value o))
  unfolding after_save
  after_save-closed entity (value answer) tab = (
    ground arith,
    refl,
    all-append is_done tab.notices (done (save_message entity tab.edit_target answer) ∷ []),
  )
  after_save-closed entity (thrown e) tab =
      (ground arith, refl, all-append is_done tab.notices (failed (entity.error_message p e) ∷ []))

  -- In each of the tabs of the upstreams and of DHCP, a save closes the modal exactly if it has
  -- succeeded, and else leaves it open; the row that is edited, or that there is none, stays either way;
  -- the user is told of an error exactly if the save has failed; and after a success no entry of the
  -- cache is served without a refetch whose query has the URL of the request, or lists the element that
  -- this URL names.
  pub save-closed :
      IsLawful qc
      → {T V : Type 0} (entity : Entity T V) (v : V) (tab : Tab T) (c : qc.Cache) (q : QueryHook)
      → let (x, after, last) = save p net w qc entity v tab c in
        (after.modal_open ≡ (tab.modal_open && not (is_value x.outcome)))
        × (after.edit_target ≡ tab.edit_target)
        × (all_done after.notices ≡ (all_done tab.notices && is_value x.outcome))
        × ((served qc last (query_spec q).query_key
              && is_value x.outcome
              && addresses (save_mutation entity tab.edit_target v) q)
            ≡ false)
  unfolding save
  save-closed L entity v tab c q =
      let m = save_mutation entity tab.edit_target v in
      let (closed, kept, told) =
        after_save-closed entity (run_mutation p net w qc m c).0.outcome tab in
      (closed, kept, told, (run_mutation-addresses p net w qc L m q c).0)
