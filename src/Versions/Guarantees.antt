-- ===== src/Versions/Guarantees.antt =====
-- What the requests of a workspace keep, whichever run and however they interleave.
use apex_appraise.Versions.Writes.{not_approved, may_edit-status}
use apex_appraise.Common.{
  ◌==◌, str_eq_self, Result, OnOk, ok, ℕ, String, ◌≡◌, refl, sym, ap, ◌∙◌, subst, ◌≢◌, true, false,
  ◌&&◌, not, some, List, [], arith,
}
use apex_appraise.Table.{update_many, count, find_first-update_many}
use apex_appraise.Table.Keyed.{has, row, row-key}
use apex_appraise.Table.Unique.{All-row}
use apex_appraise.Table.Counting.{row-of-count}
use apex_appraise.Engine.Number.{Number, IsOrdered}
use apex_appraise.Engine.Types.{AppraisalInput}
use apex_appraise.Versions.Pin.{verify, verify-pin_for}
use apex_appraise.Versions.Row.{Version, version_id, is_current_at, current_appraisal, approved}
use apex_appraise.Versions.Requests.{
  Workspace, SaveRequest, is_approved, assert_unchanged, edited, may_edit, edit, save_read, save,
}
use apex_appraise.Versions.History.{Act, empty_database, run, AreSupplied}
use apex_appraise.Versions.Later.{IsSameSigned, Later}
use apex_appraise.Versions.Sound.{HasOneCurrent, IsPinned, IsSound}
use apex_appraise.Versions.Reads.{newest-keep}
use apex_appraise.Versions.Runs.{IsChain, chain-IsSound, run-IsNext}

-- A refusal has no value, so what holds of the value holds of the one that was returned.
OnOk-value {ℓ κ μ} :
    {E : Type ℓ} {A : Type κ} (P : A → Type μ) (m : Result E A) (a : A) → m ≡ ok a → OnOk P m → P a
OnOk-value P m a e h = subst (OnOk P) e h

module _ {R : Type 0} ⦃n : Number R⦄ (hash : AppraisalInput R → String) (next_label : ℕ → String)
    (as_restored : String → String) where
  abbrev pub versions_after : List (Act R) → List (Version R)
  versions_after acts = (run hash next_label as_restored acts empty_database).now.versions

  pub empty-IsSound : IsSound {R = R} hash []
  unfolding HasOneCurrent
  empty-IsSound = record { unique = tt; one = λ org deal. refl; pinned = tt }

  empty-IsChain : IsChain {R = R} hash empty_database.now empty_database.past
  unfolding IsChain
  empty-IsChain = empty-IsSound

  reached :
      (acts : List (Act R))
      → AreSupplied hash next_label as_restored acts empty_database
      → IsSound hash (versions_after acts)
  reached acts h =
      let db = run hash next_label as_restored acts empty_database in
      chain-IsSound hash db.now db.past
        (run-IsNext hash next_label as_restored acts empty_database h empty-IsChain).chain

  -- After any schedule of `save`, `submitForReview`, `review` and `restore`, each with reads as old as
  -- they may be, a deal that has a version has exactly one that is current, and a deal that has none has
  -- no current one: given fresh ids for the rows that are created, and a clock that is not behind the
  -- stamps of the table where a version is stood down.
  pub run-HasOneCurrent :
      (acts : List (Act R))
      → AreSupplied hash next_label as_restored acts empty_database
      → HasOneCurrent (versions_after acts)
  run-HasOneCurrent acts h = (reached acts h).one

  -- A version that is approved after a schedule of `save`, `submitForReview`, `review` and `restore` is
  -- still there after any further one, still approved, with the inputs, the pin, the label, the
  -- narrative, the reviewer and the time of review that it had, whatever was read before the approval
  -- and written after it: given fresh ids for the rows that are created, and a clock that is not
  -- behind the stamps of the table where a version is stood down.
  pub run-IsSameSigned :
      (acts more : List (Act R)) (id : String) (v : Version R)
      → AreSupplied hash next_label as_restored acts empty_database
      → AreSupplied hash next_label as_restored more
          (run hash next_label as_restored acts empty_database)
      → row version_id id (versions_after acts) ≡ some v
      → v.review_status ≡ approved
      → (r : Version R) × (row version_id id
            (run hash next_label as_restored more
              (run hash next_label as_restored acts empty_database)).now.versions
          ≡ some r)
        × IsSameSigned v r
  unfolding Later
  run-IsSameSigned acts more id v h g at e =
      let first = run-IsNext hash next_label as_restored acts empty_database h empty-IsChain in
      let next =
        run-IsNext hash next_label as_restored more
          (run hash next_label as_restored acts empty_database) g first.chain in
      let (r, now_at, ev) = next.later id v at in (r, now_at, ev.signed e)

  -- A version that is approved after a schedule of `save`, `submitForReview`, `review` and `restore`, with
  -- fresh ids and a clock that is not behind the stamps where a version is stood down, verifies against its pin: the engine is
  -- the one that it was approved with, the digest of its inputs is the pinned one, and every figure
  -- that the engine computes from them is the pinned figure, for numbers whose order is reflexive as
  -- that of finite floating-point numbers is.
  pub run-verify :
      (laws : IsOrdered R) (acts : List (Act R)) (id : String) (v : Version R)
      → AreSupplied hash next_label as_restored acts empty_database
      → row version_id id (versions_after acts) ≡ some v
      → v.review_status ≡ approved
      → verify hash v.input v.approval_pin
        ≡ some (record {
          same_engine = true;
          inputs_unchanged = true;
          figures_match = true;
          drift = [];
        })
  unfolding IsPinned
  run-verify laws acts id v h at e =
      let (t, pin) =
        All-row (IsPinned hash) (has version_id id) (versions_after acts) v (reached acts h).pinned
          at e in
      rw pin (verify-pin_for hash laws v.input t)

  edit-accepted :
      (q : SaveRequest R) (existing : Version R) (now t : ℕ) (rows after : List (Version R))
      → q.expected_updated_at ≡ some t
      → edit q existing now rows ≡ ok after
      → (not (is_approved existing.review_status) ≡ true)
        × (existing.updated_at ≡ t)
        × ((count (λ (v : Version R). has version_id existing.id v && may_edit q existing v) rows
              == 0)
            ≡ false)
        × (update_many
              (λ (v : Version R). has version_id existing.id v && may_edit q existing v)
              (edited q existing now)
              rows
            ≡ after)
  unfolding edit assert_unchanged
  edit-accepted q existing now t rows after e h =
      (ground (arith, e, h), ground (arith, e, h), ground (arith, e, h), ground (arith, e, h))

  save-edit :
      (q : SaveRequest R) (existing : Version R) (now : ℕ) (seen : List (Version R))
      (w after : Workspace R)
      → current_appraisal q.org_id q.deal_id seen ≡ some existing
      → q.as_new_version ≡ false
      → save next_label q now seen w ≡ ok after
      → edit q existing now w.versions ≡ ok after.versions
  unfolding save save_read
  save-edit q existing now seen w after cur in_place h = ground (arith, cur, in_place, h)

  -- A save in place that is accepted writes over the row whose inputs the caller had loaded: `loaded` is
  -- the table when it was loaded, `seen` when the save read it and `w` when it wrote, each sound and
  -- later than the one before. Nothing that another request wrote in between is lost, and the row was
  -- not approved.
  pub save-loaded :
      (q : SaveRequest R) (now : ℕ) (loaded seen : List (Version R)) (w after : Workspace R)
      (l existing : Version R)
      → IsSound hash seen
      → IsSound hash w.versions
      → Later loaded seen
      → Later seen w.versions
      → row version_id existing.id loaded ≡ some l
      → current_appraisal q.org_id q.deal_id seen ≡ some existing
      → q.as_new_version ≡ false
      → q.expected_updated_at ≡ some l.updated_at
      → save next_label q now seen w ≡ ok after
      → (r : Version R) × (row version_id existing.id w.versions ≡ some r)
        × (r.input ≡ l.input)
        × (r.review_status ≢ approved)
        × (row version_id existing.id after.versions ≡ some (edited q existing now r))
  unfolding current_appraisal Later
  save-loaded q now loaded seen w after l existing s_seen s loaded_seen seen_w at cur in_place
        expected done =
      let id = existing.id in
      let (open_, stamp, found, made) =
        edit-accepted q existing now l.updated_at w.versions after.versions expected
          (save-edit q existing now seen w after cur in_place done) in
      let (r, now_at, test) =
        row-of-count version_id id (may_edit q existing) w.versions s.unique found in
      let mine : (has version_id id r && may_edit q existing r) ≡ true =
        ground (arith, test, row-key version_id id w.versions r now_at, str_eq_self id) in
      let (same_stamp, same_status) = may_edit-status hash q existing r mine in
      let (was, _) =
        newest-keep (is_current_at q.org_id q.deal_id) seen existing s_seen.unique cur in
      let (x, x_at, first) = loaded_seen id l at in
      let (y, y_at, second) = seen_w id existing was in
      let x_same : x ≡ existing = ground (arith, x_at, was) in
      let y_same : y ≡ r = ground (arith, y_at, now_at) in
      (
        r,
        now_at,
        ap (λ (z : Version R). z.input) (sym y_same)
            ∙ second.input (sym (ap (λ (z : Version R). z.updated_at) y_same ∙ same_stamp))
            ∙ ap (λ (z : Version R). z.input) (sym x_same)
            ∙ first.input (sym (ap (λ (z : Version R). z.updated_at) x_same ∙ stamp)),
        (λ e. not_approved existing.review_status open_ (sym same_status ∙ e)),
        subst (λ rows. row version_id id rows ≡ some (edited q existing now r)) made
            (find_first-update_many (has version_id id)
                (λ (v : Version R). has version_id id v && may_edit q existing v)
                (edited q existing now) (λ v. refl) w.versions
              ∙ rw (now_at, mine) refl),
      )
