-- ===== src/Versions/Approval.antt =====
-- A version that nobody else writes to can be sent for review and approved.
use apex_appraise.Common.{
  str_eq, str_eq_self, ok, ℕ, String, ◌≡◌, refl, sym, ◌∙◌, subst, ◌≢◌, Bool, true, ◌&&◌, not,
  Option, some, List, ◌∷◌, arith,
}
use apex_appraise.Table.{update_many, count, find_first-update_many}
use apex_appraise.Table.Keyed.{has, row, row-key}
use apex_appraise.Table.Unique.{Unique, Unique-update_many, count-row}
use apex_appraise.Table.Counting.{row-of-owned}
use apex_appraise.Engine.Number.{Number}
use apex_appraise.Engine.Types.{AppraisalInput}
use apex_appraise.Versions.Pin.{pin_for}
use apex_appraise.Versions.Row.{
  ReviewStatus, status_eq, Version, version_id, find_owned, draft, in_review, approved,
  changes_requested,
}
use apex_appraise.Versions.Requests.{
  Workspace, is_approved, is_in_review, assert_unchanged, advanced, in_hand, may_submit,
  submit_read, submit_for_review, may_decide, reviewable, decided, decide, review_read, review,
  submitted, signed_off, approve,
}
use apex_appraise.Versions.Reads.{status_eq_sound}

status_eq_self : (a : ReviewStatus) → status_eq a a ≡ true
status_eq_self draft = refl
status_eq_self in_review = refl
status_eq_self approved = refl
status_eq_self changes_requested = refl

pub is_open : (a : ReviewStatus) → ¬ (a ≡ approved) → not (is_approved a) ≡ true
is_open a h = ground (arith, status_eq_sound a approved, h)

module _ {R : Type 0} where
  -- An owned row that passes a test is the one row that the compare-and-set writes.
  count-owned :
      (id : String) (c : Version R → Bool) (rows : List (Version R)) (v : Version R)
      → Unique version_id rows
      → row version_id id rows ≡ some v
      → c v ≡ true
      → count (λ (r : Version R). has version_id id r && c r) rows ≡ 1
  count-owned id c rows v u at h = count-row version_id id c rows u ∙ rw (at, h) refl

  -- After the compare-and-set the row of the id is the one written.
  pub row-written :
      (id : String) (c : Version R → Bool) (f : Version R → Version R) (rows : List (Version R))
      (v : Version R)
      → ((r : Version R) → (f r).id ≡ r.id)
      → row version_id id rows ≡ some v
      → c v ≡ true
      → row version_id id (update_many (λ (r : Version R). has version_id id r && c r) f rows)
        ≡ some (f v)
  row-written id c f rows v same at h =
      find_first-update_many (has version_id id) (λ (r : Version R). has version_id id r && c r) f
        (λ r. rw (same r) refl) rows
      ∙ (let mine : (has version_id id v && c v) ≡ true =
            ground (arith, h, row-key version_id id rows v at, str_eq_self id) in
          rw (at, mine) refl)

  submit-accepted :
      (org user : String) (now : ℕ) (v : Version R) (w : Workspace R)
      → Unique version_id w.versions
      → row version_id v.id w.versions ≡ some v
      → str_eq v.org_id org ≡ true
      → ¬ (v.review_status ≡ approved)
      → submit_read org user now v w
        ≡ ok (record {
          versions =
              update_many
                (λ (r : Version R). has version_id v.id r && may_submit org v r)
                (in_hand user now v)
                w.versions;
          events = submitted v.id ∷ w.events;
        })
  unfolding submit_read
  submit-accepted org user now v w u at own open_ =
      let may : may_submit org v v ≡ true = ground (arith, own, status_eq_self v.review_status) in
      rw (is_open v.review_status open_, count-owned v.id (may_submit org v) w.versions v u at may)
        refl

  -- The row as it was sent for review is what a lookup by id and workspace finds then.
  found-submitted :
      (org user id : String) (now : ℕ) (v : Version R) (rows : List (Version R))
      → find_owned id org rows ≡ some v
      → v.id ≡ id
      → str_eq v.org_id org ≡ true
      → find_owned id org (
          update_many
            (λ (r : Version R). has version_id v.id r && may_submit org v r)
            (in_hand user now v)
            rows)
        ≡ some (in_hand user now v v)
  found-submitted org user id now v rows found key own =
      let mine : (has version_id v.id v && may_submit org v v) ≡ true =
        ground (arith, own, str_eq_self v.id, status_eq_self v.review_status) in
      find_first-update_many (λ (r : Version R). has version_id id r && str_eq r.org_id org)
        (λ (r : Version R). has version_id v.id r && may_submit org v r) (in_hand user now v)
        (λ r. refl) rows
      ∙ rw (found, mine) refl

module _ {R : Type 0} ⦃n : Number R⦄ (hash : AppraisalInput R → String) where
  review-accepted :
      (org reviewer id : String) (reason : Option String) (now : ℕ) (v : Version R)
      (w : Workspace R)
      → Unique version_id w.versions
      → find_owned id org w.versions ≡ some v
      → row version_id v.id w.versions ≡ some v
      → str_eq v.org_id org ≡ true
      → v.review_status ≡ in_review
      → review hash approve org reviewer id reason (some v.updated_at) now w.versions w
        ≡ ok (record {
          versions =
              update_many
                (λ (r : Version R). has version_id v.id r && may_decide org v r)
                (decided hash approve reviewer reason now v)
                w.versions;
          events = signed_off v.id ∷ w.events;
        })
  unfolding review review_read reviewable decide assert_unchanged
  review-accepted org reviewer id reason now v w u found at own status =
      let waiting : is_in_review v.review_status ≡ true = rw status refl in
      let may : may_decide org v v ≡ true = ground (arith, own, waiting) in
      let one = count-owned v.id (may_decide org v) w.versions v u at may in
      ground (arith, found, waiting, one)

  -- Any version of the workspace that is not approved yet can be, when nobody else writes to it: sending
  -- it for review is accepted, approving it with the stamp that this left is accepted, and the version is
  -- then approved, by the reviewer, with the pin of the inputs that it had.
  pub submit-review :
      (org user reviewer id : String) (reason : Option String) (now then_ : ℕ) (v : Version R)
      (w : Workspace R)
      → Unique version_id w.versions
      → find_owned id org w.versions ≡ some v
      → v.review_status ≢ approved
      → (sent signed : Workspace R) × (submit_for_review org user id now w.versions w ≡ ok sent)
        × (review hash approve org reviewer id reason
              (some (advanced now v.updated_at))
              then_
              sent.versions
              sent
            ≡ ok signed)
        × (r : Version R) × (row version_id id signed.versions ≡ some r)
        × (r.review_status ≡ approved)
        × (r.reviewed_by ≡ some reviewer)
        × (r.approval_pin ≡ some (pin_for hash v.input then_))
  unfolding submit_for_review
  submit-review org user reviewer id reason now then_ v w u found open_ =
      let (first, own) =
        row-of-owned version_id id (λ (x : Version R). str_eq x.org_id org) w.versions v u found in
      let key : v.id ≡ id = row-key version_id id w.versions v first in
      let at : row version_id v.id w.versions ≡ some v =
        subst (λ (x : String). row version_id x w.versions ≡ some v) (sym key) first in
      let mine = λ (r : Version R). has version_id v.id r && may_submit org v r in
      let x = in_hand user now v v in
      let rows = update_many mine (in_hand user now v) w.versions in
      let u1 = Unique-update_many version_id mine (in_hand user now v) (λ r. refl) w.versions u in
      let may : may_submit org v v ≡ true = ground (arith, own, status_eq_self v.review_status) in
      let at1 =
        row-written v.id (may_submit org v) (in_hand user now v) w.versions v (λ r. refl) at may in
      let may1 : may_decide org x x ≡ true = ground (arith, own) in
      let sent : Workspace R = record { versions = rows; events = submitted v.id ∷ w.events } in
      (
        sent,
        _,
        rw (found, submit_for_review) (submit-accepted org user now v w u at own open_),
        review-accepted org reviewer id reason then_ x sent u1
            (found-submitted org user id now v w.versions found key own) at1 own refl,
        decided hash approve reviewer reason then_ x x,
        subst
            (λ (k : String).
              row version_id k (
                update_many (λ (r : Version R). has version_id v.id r && may_decide org x r)
                  (decided hash approve reviewer reason then_ x) rows)
              ≡ some (decided hash approve reviewer reason then_ x x))
            key
            (row-written v.id (may_decide org x) (decided hash approve reviewer reason then_ x) rows
              x (λ r. refl) at1 may1),
        refl,
        refl,
        refl,
      )
