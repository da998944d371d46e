-- ===== src/Versions/History.antt =====
-- Requests that run at the same time: a schedule of requests over the states that the database has been
-- in. Each read of a request sees the state that stood when it read, `age` writes before its own write.
use apex_appraise.Common.{
  any, All, Result, ok, err, ℕ, zero, suc, ◌-◌, ◌≤◌, String, ◌≡◌, true, false, Option, List, [],
  ◌∷◌,
}
use apex_appraise.Table.Keyed.{has}
use apex_appraise.Engine.Number.{Number}
use apex_appraise.Engine.Types.{AppraisalInput}
use apex_appraise.Versions.Row.{Version, version_id}
use apex_appraise.Versions.Requests.{
  Refusal, Workspace, SaveRequest, Decision, save, submit_for_review, restore, review,
}

pub data Act (R : Type 0) : Type 0 where
  saving : (q : SaveRequest R) (now age : ℕ) → Act R
  submitting : (org user id : String) (now age : ℕ) → Act R
  reviewing :
      (d : Decision) (org user id : String) (note : Option String) (expected : Option ℕ)
      (now age : ℕ)
      → Act R
  -- the second read is `wait` writes after the first
  restoring : (org deal id new_id : String) (now age wait : ℕ) → Act R

-- The state of the database, and the states before it, newest first.
pub record Database (R : Type 0) : Type 0 where
  pub now : Workspace R
  pub past : List (Workspace R)

module _ {R : Type 0} where
  -- the state `age` writes before `now`, or the first one
  abbrev pub read_at : ℕ → (now : Workspace R) → (past : List (Workspace R)) → Workspace R
  read_at zero now past = now
  read_at (suc age) now [] = now
  read_at (suc age) now (before ∷ past) = read_at age before past

  abbrev pub read : ℕ → Database R → List (Version R)
  read age db = (read_at age db.now db.past).versions

  abbrev pub written : Database R → Result Refusal (Workspace R) → Database R
  written db (err e) = db
  written db (ok w) = record { now = w; past = db.now ∷ db.past }

  abbrev pub empty_database : Database R
  empty_database = record { now = record { versions = []; events = [] }; past = [] }

  -- What the database and the clock provide: an id that no row has, and, where a version is stood down,
  -- a stamp that is not before its last one.
  abbrev pub IsFresh : (id : String) → Database R → Type 0
  IsFresh id db = any (has version_id id) db.now.versions ≡ false

  abbrev pub IsTimely : (now : ℕ) → Database R → Type 0
  IsTimely now db = All (λ (v : Version R). v.updated_at ≤ now) db.now.versions

  abbrev pub IsSupplied : Act R → Database R → Type 0
  IsSupplied (saving q now age) db =
      IsFresh q.new_id db × (q.as_new_version ≡ true → IsTimely now db)
  IsSupplied (submitting org user id now age) db = Unit
  IsSupplied (reviewing d org user id reason expected now age) db = Unit
  IsSupplied (restoring org deal id new_id now age wait) db = IsFresh new_id db × IsTimely now db

module _ {R : Type 0} ⦃n : Number R⦄ (hash : AppraisalInput R → String) (next_label : ℕ → String)
    (as_restored : String → String) where
  unfoldable pub attempt : Act R → Database R → Result Refusal (Workspace R)
  attempt (saving q now age) db = save next_label q now (read age db) db.now
  attempt (submitting org user id now age) db =
      submit_for_review org user id now (read age db) db.now
  attempt (reviewing d org user id reason expected now age) db =
      review hash d org user id reason expected now (read age db) db.now
  attempt (restoring org deal id new_id now age wait) db =
      restore as_restored org deal id new_id now (read age db) (read (age - wait) db) db.now

  abbrev pub step : Act R → Database R → Database R
  step a db = written db (attempt a db)

  abbrev pub run : List (Act R) → Database R → Database R
  run [] db = db
  run (a ∷ acts) db = run acts (step a db)

  abbrev pub AreSupplied : List (Act R) → Database R → Type 0
  AreSupplied [] db = Unit
  AreSupplied (a ∷ acts) db = IsSupplied a db × AreSupplied acts (step a db)
