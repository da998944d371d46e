-- ===== src/Versions/Steps/Restoring.antt =====
-- `restore`.
use apex_appraise.Versions.Steps.{replace-IsWrite, current-place}
use apex_appraise.Common.{
  str_eq_iff, Option-cases, any, All, OnOk, OnOk-bind, ℕ, ◌≤◌, String, ◌≡◌, refl, sym, ◌∙◌, inl,
  inr, true, false, Option, none, some, List, [], ◌∷◌, ◌++◌, arith,
}
use apex_appraise.Table.Keyed.{has}
use apex_appraise.Table.Counting.{any-of-row, row-of-owned}
use apex_appraise.Engine.Number.{Number}
use apex_appraise.Engine.Types.{AppraisalInput}
use apex_appraise.Versions.Row.{
  Version, version_id, at_deal, is_current_at, current_appraisal, find_at_deal,
}
use apex_appraise.Versions.Requests.{Workspace, stood_down, restored, restore_read, restore}
use apex_appraise.Versions.Later.{Later}
use apex_appraise.Versions.Sound.{HasOneCurrent, IsSound, IsWrite}
use apex_appraise.Versions.Reads.{newest-keep-none}

module _ {R : Type 0} ⦃n : Number R⦄ (hash : AppraisalInput R → String) where
  -- A version found at a deal was there before the current one was read, so there is a current one.
  some-current :
      (id org deal : String) (seen later : List (Version R)) (v : Version R)
      → IsSound hash seen
      → Later seen later
      → IsSound hash later
      → find_at_deal id org deal seen ≡ some v
      → ¬ (current_appraisal org deal later ≡ none)
  unfolding current_appraisal Later HasOneCurrent
  some-current id org deal seen later v s h t e none_found =
      let (at, test) = row-of-owned version_id id (at_deal org deal) seen v s.unique e in
      let (r, now_at, ev) = h id v at in
      let holds : at_deal org deal r ≡ true = rw (ev.org, ev.deal) test in
      let some_at = any-of-row (at_deal org deal) (has version_id id) later r now_at holds in
      ground
        (arith, some_at, t.one org deal, newest-keep-none (is_current_at org deal) later none_found)

  restore_read-IsWrite :
      (as_restored : String → String) (org deal new_id : String) (now : ℕ) (v : Version R)
      (found : Option (Version R)) (later : List (Version R)) (w : Workspace R)
      → current_appraisal org deal later ≡ found
      → at_deal org deal v ≡ true
      → ¬ (found ≡ none)
      → any (has version_id new_id) w.versions ≡ false
      → All (λ (r : Version R). r.updated_at ≤ now) w.versions
      → IsSound hash later
      → Later later w.versions
      → IsSound hash w.versions
      → OnOk
          (λ (after : Workspace R). IsWrite hash w.versions after.versions)
          (restore_read as_restored new_id now v found w)
  unfolding restore_read
  restore_read-IsWrite as_restored org deal new_id now v none later w h at some_found fresh timely
        s_later later_w s =
      absurd (some_found refl)
  restore_read-IsWrite as_restored org deal new_id now v (some c) later w h at some_found fresh
        timely s_later later_w s =
      OnOk-bind
        (λ stood.
          (l : String)
          → IsWrite hash w.versions (stood ++ (restored as_restored new_id now v ∷ [])))
        (λ (after : Workspace R). IsWrite hash w.versions after.versions)
        (stood_down c.id now w.versions) _
        (replace-IsWrite hash c.id now (λ l. restored as_restored new_id now v) w.versions
          (λ r l row_at.
            let (o, d) =
              current-place hash org deal c later w.versions s_later later_w h r row_at in
            (
              o ∙ sym (ground (arith, at, str_eq_iff v.org_id org)),
              d ∙ sym (ground (arith, at, str_eq_iff v.deal_id deal)),
            ))
          (λ l. fresh) (λ l. refl) (λ l. refl) timely s)
        (λ stood x. x "")

  pub restore-IsWrite :
      (as_restored : String → String) (org deal id new_id : String) (now : ℕ)
      (seen later : List (Version R)) (w : Workspace R)
      → any (has version_id new_id) w.versions ≡ false
      → All (λ (r : Version R). r.updated_at ≤ now) w.versions
      → IsSound hash seen
      → Later seen later
      → IsSound hash later
      → Later later w.versions
      → IsSound hash w.versions
      → OnOk
          (λ (after : Workspace R). IsWrite hash w.versions after.versions)
          (restore as_restored org deal id new_id now seen later w)
  unfolding restore
  restore-IsWrite as_restored org deal id new_id now seen later w fresh timely s_seen seen_later
        s_later later_w s =
      elim (Option-cases (find_at_deal id org deal seen)) [
        | inl e ↦ rw (e, OnOk) tt
        | inr (v, e) ↦
            rw (e, OnOk)
              (restore_read-IsWrite as_restored org deal new_id now v
                (current_appraisal org deal later) later w refl
                (row-of-owned version_id id (at_deal org deal) seen v s_seen.unique e).1
                (some-current id org deal seen later v s_seen seen_later s_later e) fresh timely
                s_later later_w s)
      ]
