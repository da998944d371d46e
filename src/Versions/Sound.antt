-- ===== src/Versions/Sound.antt =====
-- What makes a table of versions sound, and the writes that keep it so.
use apex_appraise.Common.{
  if◌then◌else◌, str_eq_iff, any, All, ℕ, ◌≤◌, String, ◌≡◌, refl, ◌∙◌, Bool, true, false, ◌&&◌,
  some, List, [], ◌∷◌, ◌++◌, arith,
}
use apex_appraise.Table.{update_many, count}
use apex_appraise.Table.Keyed.{has, row}
use apex_appraise.Table.Unique.{
  Unique, any-update_many, Unique-update_many, Unique-insert, All-update_many, All-insert,
}
use apex_appraise.Table.Counting.{
  count-append, any-append_one, count-update_many, any-update_same, any-of-row, count-change_row,
  All-update_where,
}
use apex_appraise.Engine.Number.{Number}
use apex_appraise.Engine.Types.{AppraisalInput}
use apex_appraise.Versions.Pin.{pin_for}
use apex_appraise.Versions.Row.{Version, version_id, at_deal, is_current_at, draft, approved}
use apex_appraise.Versions.Requests.{stand_down}
use apex_appraise.Versions.Later.{
  Evolves, Later, Later-trans, Later-append, Later-update_many, Evolves-stand_down,
}

module _ {R : Type 0} where
  -- Every deal that has a version has exactly one current one.
  unfoldable pub HasOneCurrent : List (Version R) → Type 0
  HasOneCurrent rows =
      (org deal : String)
      → count (is_current_at org deal) rows ≡ (if any (at_deal org deal) rows then 1 else 0)

module _ {R : Type 0} ⦃n : Number R⦄ (hash : AppraisalInput R → String) where
  -- An approved version carries the pin of the inputs that it has.
  unfoldable pub IsPinned : Version R → Type 0
  IsPinned v =
      v.review_status ≡ approved → (t : ℕ) × (v.approval_pin ≡ some (pin_for hash v.input t))

  pub record IsSound (rows : List (Version R)) : Type 0 where
    pub unique : Unique version_id rows
    pub one : HasOneCurrent rows
    pub pinned : All IsPinned rows

  -- The table after a write: sound, and later than the one before.
  pub record IsWrite (before after : List (Version R)) : Type 0 where
    pub sound : IsSound after
    pub later : Later before after

  -- A write to the row of one id that keeps its place and whether it is current.
  pub IsWrite-update :
      (k : String) (c : Version R → Bool) (f : Version R → Version R) (P : Version R → Type 0)
      → ((r : Version R) → (f r).id ≡ r.id)
      → ((r : Version R) (org deal : String) → at_deal org deal (f r) ≡ at_deal org deal r)
      → ((r : Version R) → (f r).is_current ≡ r.is_current)
      → ((r : Version R) → P r → (has version_id k r && c r) ≡ true → Evolves r (f r))
      → ((r : Version R) → P r → IsPinned r → (has version_id k r && c r) ≡ true → IsPinned (f r))
      → (rows : List (Version R)) → All P rows
      → IsSound rows
      → IsWrite rows (update_many (λ (r : Version R). has version_id k r && c r) f rows)
  unfolding HasOneCurrent
  IsWrite-update k c f P same place current evolves pinned rows a s =
      let p = λ (r : Version R). has version_id k r && c r in
      record {
        sound = record {
          unique = Unique-update_many version_id p f same rows s.unique;
          one = λ org deal.
              count-update_many (is_current_at org deal) p f
                (λ r _. rw (place r org deal, current r) refl) rows
              ∙ s.one org deal
              ∙ rw (any-update_same (at_deal org deal) p f (λ r _. place r org deal) rows) refl;
          pinned = All-update_where P IsPinned p f pinned rows a s.pinned;
        };
        later = Later-update_many P p f same evolves rows a;
      }

  draft-IsPinned : (v : Version R) → v.review_status ≡ draft → IsPinned v
  unfolding IsPinned
  draft-IsPinned v h e = ground (arith, h, e)

  -- The first version of a deal.
  pub IsWrite-first :
      (new : Version R) (rows : List (Version R))
      → any (at_deal new.org_id new.deal_id) rows ≡ false
      → any (has version_id new.id) rows ≡ false
      → new.is_current ≡ true
      → new.review_status ≡ draft
      → IsSound rows
      → IsWrite rows (rows ++ (new ∷ []))
  unfolding HasOneCurrent
  IsWrite-first new rows none_at fresh current status s = record {
    sound = record {
      unique = Unique-insert version_id new rows fresh s.unique;
      one = λ org deal. ground (
        arith,
        current,
        none_at,
        count-append (is_current_at org deal) rows new,
        any-append_one (at_deal org deal) rows new,
        s.one org deal,
        str_eq_iff new.org_id org,
        str_eq_iff new.deal_id deal,
      );
      pinned = All-insert IsPinned new rows (draft-IsPinned new status) s.pinned;
    };
    later = Later-append rows (new ∷ []);
  }

  -- A new version takes the place of the current one `r`.
  pub IsWrite-replace :
      (now : ℕ) (new r : Version R) (rows : List (Version R))
      → row version_id r.id rows ≡ some r
      → r.is_current ≡ true
      → r.org_id ≡ new.org_id
      → r.deal_id ≡ new.deal_id
      → any (has version_id new.id) rows ≡ false
      → new.is_current ≡ true
      → new.review_status ≡ draft
      → All (λ (v : Version R). v.updated_at ≤ now) rows
      → IsSound rows
      → IsWrite rows (
          update_many
            (λ (v : Version R). has version_id r.id v && v.is_current)
            (stand_down now)
            rows
          ++ (new ∷ []))
  unfolding HasOneCurrent IsPinned
  IsWrite-replace now new r rows at cur org_eq deal_eq fresh current status timely s =
      let mine = λ (v : Version R). has version_id r.id v && v.is_current in
      let stood = update_many mine (stand_down now) rows in
      record {
        sound = record {
          unique =
              Unique-insert version_id new stood
                (any-update_many version_id new.id mine (stand_down now) (λ v. refl) rows ∙ fresh)
                (Unique-update_many version_id mine (stand_down now) (λ v. refl) rows s.unique);
          one = λ org deal. ground (
            arith,
            current,
            cur,
            org_eq,
            deal_eq,
            count-append (is_current_at org deal) stood new,
            any-append_one (at_deal org deal) stood new,
            any-update_same (at_deal org deal) mine (stand_down now) (λ v _. refl) rows,
            count-change_row version_id r.id (λ (v : Version R). v.is_current)
                (is_current_at org deal) (stand_down now) rows r s.unique at cur,
            any-of-row (at_deal org deal) (has version_id r.id) rows r at,
            s.one org deal,
          );
          pinned =
              All-insert IsPinned new stood (draft-IsPinned new status)
                (All-update_many IsPinned mine (stand_down now) (λ v b _. b) rows s.pinned);
        };
        later =
            Later-trans rows stood _
              (Later-update_many (λ (v : Version R). v.updated_at ≤ now) mine (stand_down now)
                (λ v. refl) (λ v t _. Evolves-stand_down now v t) rows timely)
              (Later-append stood (new ∷ []));
      }
