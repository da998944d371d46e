-- ===== src/Versions/Runs.antt =====
-- Schedules of requests: every state that they reach is sound and later than the ones before it.
use apex_appraise.Common.{
  Result, OnOk, ok, err, ℕ, zero, suc, ◌-◌, ◌≤◌, String, List, [], ◌∷◌, arith,
}
use apex_appraise.Engine.Number.{Number}
use apex_appraise.Engine.Types.{AppraisalInput}
use apex_appraise.Versions.Requests.{Refusal, Workspace}
use apex_appraise.Versions.History.{
  Act, Database, read_at, read, written, IsSupplied, attempt, step, run, AreSupplied, saving,
  submitting, reviewing, restoring,
}
use apex_appraise.Versions.Later.{Later, Later-refl, Later-trans}
use apex_appraise.Versions.Sound.{IsSound, IsWrite}
use apex_appraise.Versions.Steps.Saving.{save-IsWrite}
use apex_appraise.Versions.Steps.Reviewing.{submit_for_review-IsWrite, review-IsWrite}
use apex_appraise.Versions.Steps.Restoring.{restore-IsWrite}

module _ {R : Type 0} ⦃n : Number R⦄ (hash : AppraisalInput R → String) where
  -- Every state is sound, and later than the one before it.
  unfoldable pub IsChain : Workspace R → List (Workspace R) → Type 0
  IsChain now [] = IsSound hash now.versions
  IsChain now (before ∷ past) =
      IsSound hash now.versions × Later before.versions now.versions × IsChain before past

  pub chain-IsSound :
      (now : Workspace R) (past : List (Workspace R)) → IsChain now past → IsSound hash now.versions
  unfolding IsChain
  chain-IsSound now [] c = c
  chain-IsSound now (before ∷ past) c = c.0

  read_at-IsSound :
      (age : ℕ) (now : Workspace R) (past : List (Workspace R))
      → IsChain now past
      → IsSound hash (read_at age now past).versions
  unfolding IsChain
  read_at-IsSound zero now past c = chain-IsSound now past c
  read_at-IsSound (suc age) now [] c = c
  read_at-IsSound (suc age) now (before ∷ past) c = read_at-IsSound age before past c.2

  -- What is read after something else is later than it.
  read_at-Later :
      (age newer : ℕ) (now : Workspace R) (past : List (Workspace R))
      → IsChain now past
      → newer ≤ age
      → Later (read_at age now past).versions (read_at newer now past).versions
  unfolding IsChain
  read_at-Later zero zero now past c h = Later-refl now.versions
  read_at-Later zero (suc newer) now past c h = absurd (omega (arith, h))
  read_at-Later (suc age) zero now [] c h = Later-refl now.versions
  read_at-Later (suc age) (suc newer) now [] c h = Later-refl now.versions
  read_at-Later (suc age) zero now (before ∷ past) c h =
      Later-trans (read_at age before past).versions before.versions now.versions
        (read_at-Later age 0 before past c.2 (omega arith)) c.1
  read_at-Later (suc age) (suc newer) now (before ∷ past) c h =
      read_at-Later age newer before past c.2 (omega (arith, h))

module _ {R : Type 0} ⦃n : Number R⦄ (hash : AppraisalInput R → String) (next_label : ℕ → String)
    (as_restored : String → String) where
  attempt-IsWrite :
      (a : Act R) (db : Database R)
      → IsSupplied a db
      → IsChain hash db.now db.past
      → OnOk
          (λ (after : Workspace R). IsWrite hash db.now.versions after.versions)
          (attempt hash next_label as_restored a db)
  unfolding attempt
  attempt-IsWrite (saving q now age) db h c =
      save-IsWrite hash next_label q now (read age db) db.now h.0 h.1
        (read_at-IsSound hash age db.now db.past c)
        (read_at-Later hash age 0 db.now db.past c (omega arith))
        (chain-IsSound hash db.now db.past c)
  attempt-IsWrite (submitting org user id now age) db h c =
      submit_for_review-IsWrite hash org user id now (read age db) db.now
        (chain-IsSound hash db.now db.past c)
  attempt-IsWrite (reviewing d org user id reason expected now age) db h c =
      review-IsWrite hash d org user id reason expected now (read age db) db.now
        (read_at-IsSound hash age db.now db.past c)
        (read_at-Later hash age 0 db.now db.past c (omega arith))
        (chain-IsSound hash db.now db.past c)
  attempt-IsWrite (restoring org deal id new_id now age wait) db h c =
      restore-IsWrite hash as_restored org deal id new_id now (read age db) (read (age - wait) db)
        db.now h.0 h.1 (read_at-IsSound hash age db.now db.past c)
        (read_at-Later hash age (age - wait) db.now db.past c (omega arith))
        (read_at-IsSound hash (age - wait) db.now db.past c)
        (read_at-Later hash (age - wait) 0 db.now db.past c (omega arith))
        (chain-IsSound hash db.now db.past c)

  pub record IsNext (before after : Database R) : Type 0 where
    pub chain : IsChain hash after.now after.past
    pub later : Later before.now.versions after.now.versions

  written-IsNext :
      (db : Database R) (r : Result Refusal (Workspace R))
      → IsChain hash db.now db.past
      → OnOk (λ (after : Workspace R). IsWrite hash db.now.versions after.versions) r
      → IsNext db (written db r)
  unfolding IsChain
  written-IsNext db (err e) c h = record { chain = c; later = Later-refl db.now.versions }
  written-IsNext db (ok w) c h = record { chain = (h.sound, h.later, c); later = h.later }

  pub run-IsNext :
      (acts : List (Act R)) (db : Database R)
      → AreSupplied hash next_label as_restored acts db
      → IsChain hash db.now db.past
      → IsNext db (run hash next_label as_restored acts db)
  run-IsNext [] db h c = record { chain = c; later = Later-refl db.now.versions }
  run-IsNext (a ∷ acts) db h c =
      let db1 = step hash next_label as_restored a db in
      let one =
        written-IsNext db (attempt hash next_label as_restored a db) c
          (attempt-IsWrite a db h.0 c) in
      let all = run-IsNext acts db1 h.1 one.chain in
      record {
        chain = all.chain;
        later = Later-trans db.now.versions db1.now.versions _ one.later all.later;
      }
