-- ===== src/Photos/Kept.antt =====
-- What becomes of a record of the queue, however the passes of several tabs, the browser's signals and the saves
-- of inspections interleave.
use apex_appraise.Common.{
  if◌then◌else◌, str_eq, Bool-cases, ℕ, String, ◌≡◌, refl, ◌∙◌, inl, inr, Bool, true, false, not,
  Option, none, some, List, [], ◌∷◌, arith,
}
use apex_appraise.Table.{update_many}
use apex_appraise.Table.Keyed.{has, row}
use apex_appraise.Table.Unique.{Unique, Unique-update_many, Unique-delete_many, row-delete_by}
use apex_appraise.Photos.{
  QueuedPhoto, local_key, is_filed, UploadOutcome, patch, as_uploaded, as_failed, answered,
  is_named, is_attributed, forget_attributed, brought, bring_forward, uploaded, failed,
}

-- An answer may be to a record as it was read before, by any tab.
pub data Act : Type 0 where
  answering : (sent : QueuedPhoto) (answer : UploadOutcome) (now : ℕ) → Act
  bringing : (now : ℕ) → Act
  forgetting : (named : List String) → Act

abbrev pub act : Act → List QueuedPhoto → List QueuedPhoto
act (answering sent answer now) store = patch sent.local_id (answered now sent answer) store
act (bringing now) store = bring_forward now store
act (forgetting named) store = forget_attributed named store

abbrev pub run : List Act → List QueuedPhoto → List QueuedPhoto
run [] store = store
run (a ∷ acts) store = run acts (act a store)

-- whether the record found under a key has been named
abbrev pub is_named_row : List String → Option QueuedPhoto → Bool
is_named_row named none = false
is_named_row named (some p) = is_named named p.photo_id

-- An upload gives an id, and no inspection has named the photograph of the record.
abbrev pub IsSparing : String → Act → List QueuedPhoto → Type 0
IsSparing k (answering sent (uploaded id) now) store = str_eq id "" ≡ false
IsSparing k (answering sent (failed error) now) store = Unit
IsSparing k (bringing now) store = Unit
IsSparing k (forgetting named) store = is_named_row named (row local_key k store) ≡ false

abbrev pub AreSparing : String → List Act → List QueuedPhoto → Type 0
AreSparing k [] store = Unit
AreSparing k (a ∷ acts) store = IsSparing k a store × AreSparing k acts (act a store)

-- The same photograph, filed if it was.
pub record IsSamePhoto (p after : QueuedPhoto) : Type 0 where
  pub deal : after.deal_id ≡ p.deal_id
  pub room_same : after.room_name ≡ p.room_name
  pub taken : after.taken_at ≡ p.taken_at
  pub filed : is_filed p ≡ true → is_filed after ≡ true

abbrev pub Keeps : String → QueuedPhoto → List QueuedPhoto → Type 0
Keeps k p store = (after : QueuedPhoto) × (row local_key k store ≡ some after) × IsSamePhoto p after

IsSamePhoto-refl : (p : QueuedPhoto) → IsSamePhoto p p
IsSamePhoto-refl p = record { deal = refl; room_same = refl; taken = refl; filed = λ h. h }

IsSamePhoto-trans : (a b c : QueuedPhoto) → IsSamePhoto a b → IsSamePhoto b c → IsSamePhoto a c
IsSamePhoto-trans a b c h g = record {
  deal = g.deal ∙ h.deal;
  room_same = g.room_same ∙ h.room_same;
  taken = g.taken ∙ h.taken;
  filed = λ f. g.filed (h.filed f);
}

IsSamePhoto-answered :
    (now : ℕ) (sent : QueuedPhoto) (u : UploadOutcome) (p : QueuedPhoto)
    → ((id : String) → u ≡ uploaded id → str_eq id "" ≡ false)
    → IsSamePhoto p (answered now sent u p)
IsSamePhoto-answered now sent (uploaded id) p g = record {
  deal = refl;
  room_same = refl;
  taken = refl;
  filed = λ f. ground (arith, g id refl);
}
IsSamePhoto-answered now sent (failed error) p g = record {
  deal = refl;
  room_same = refl;
  taken = refl;
  filed = λ f. f;
}

IsSamePhoto-brought : (now : ℕ) (p : QueuedPhoto) → IsSamePhoto p (brought now p)
IsSamePhoto-brought now p = record { deal = refl; room_same = refl; taken = refl; filed = λ f. f }

-- An update of the rows that pass a test, seen by a lookup.
row-update_where :
    (k : String) (q : QueuedPhoto → Bool) (f : QueuedPhoto → QueuedPhoto)
    → ((p : QueuedPhoto) → (f p).local_id ≡ p.local_id)
    → (store : List QueuedPhoto) (p : QueuedPhoto) → row local_key k store ≡ some p
    → row local_key k (update_many q f store) ≡ some (if q p then f p else p)
row-update_where k q f hk [] p h = ground (arith, h)
row-update_where k q f hk (x ∷ store) p h =
    ground (arith, h, hk x, row-update_where k q f hk store p)

update-Keeps :
    (k : String) (q : QueuedPhoto → Bool) (f : QueuedPhoto → QueuedPhoto)
    → ((p : QueuedPhoto) → (f p).local_id ≡ p.local_id)
    → ((p : QueuedPhoto) → IsSamePhoto p (f p))
    → (store : List QueuedPhoto) (p : QueuedPhoto) → row local_key k store ≡ some p
    → Keeps k p (update_many q f store)
update-Keeps k q f hk hs store p h = elim (Bool-cases (q p)) [
  | inl e ↦ (f p, row-update_where k q f hk store p h ∙ rw e refl, hs p)
  | inr e ↦ (p, row-update_where k q f hk store p h ∙ rw e refl, IsSamePhoto-refl p)
]

answered-key :
    (now : ℕ) (sent : QueuedPhoto) (u : UploadOutcome) (p : QueuedPhoto)
    → (answered now sent u p).local_id ≡ p.local_id
answered-key now sent (uploaded id) p = refl
answered-key now sent (failed error) p = refl

is_attributed-unnamed :
    (named : List String) (p : QueuedPhoto)
    → is_named named p.photo_id ≡ false
    → is_attributed named p ≡ false
is_attributed-unnamed named p h = ground (arith, h)

act-Keeps :
    (k : String) (a : Act) (store : List QueuedPhoto) (p : QueuedPhoto)
    → Unique local_key store
    → IsSparing k a store
    → row local_key k store ≡ some p
    → Keeps k p (act a store)
unfolding bring_forward forget_attributed
act-Keeps k (answering sent (uploaded id) now) store p u s h =
    update-Keeps k (has local_key sent.local_id) (as_uploaded id) (λ q. refl)
      (λ q. IsSamePhoto-answered now sent (uploaded id) q (λ j e. ground (arith, s, e))) store p h
act-Keeps k (answering sent (failed error) now) store p u s h =
    update-Keeps k (has local_key sent.local_id) (as_failed sent.attempts now error) (λ q. refl)
      (λ q. IsSamePhoto-answered now sent (failed error) q (λ j e. ground (arith, e))) store p h
act-Keeps k (bringing now) store p u s h =
    update-Keeps k (λ q. not (is_filed q)) (brought now) (λ q. refl) (IsSamePhoto-brought now) store
      p h
act-Keeps k (forgetting named) store p u s h = (
  p,
  row-delete_by local_key k (is_attributed named) store u
      ∙ rw (h, is_attributed-unnamed named p (rw h at s)) refl,
  IsSamePhoto-refl p,
)

act-Unique :
    (a : Act) (store : List QueuedPhoto) → Unique local_key store → Unique local_key (act a store)
unfolding bring_forward forget_attributed
act-Unique (answering sent answer now) store u =
    Unique-update_many local_key (has local_key sent.local_id) (answered now sent answer)
      (answered-key now sent answer) store u
act-Unique (bringing now) store u =
    Unique-update_many local_key (λ q. not (is_filed q)) (brought now) (λ q. refl) store u
act-Unique (forgetting named) store u = Unique-delete_many local_key (is_attributed named) store u

-- However the answers of uploads, the browser's signals and the saves of inspections interleave, a record stays
-- in the queue, with its deal, its room and its date, and filed once it is, until an inspection has named its
-- photograph, where no two records share a local id and every upload that succeeds gives an id.
pub run-Keeps :
    (k : String) (acts : List Act) (store : List QueuedPhoto) (p : QueuedPhoto)
    → Unique local_key store
    → AreSparing k acts store
    → row local_key k store ≡ some p
    → Keeps k p (run acts store)
run-Keeps k [] store p u s h = (p, h, IsSamePhoto-refl p)
run-Keeps k (a ∷ acts) store p u s h =
    let (p1, row1, same1) = act-Keeps k a store p u s.0 h in
    let (p2, row2, same2) = run-Keeps k acts (act a store) p1 (act-Unique a store u) s.1 row1 in
    (p2, row2, IsSamePhoto-trans p p1 p2 same1 same2)
