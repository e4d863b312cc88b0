-- ===== src/Master/UpdateTests.antt =====
-- An update of a master with three slaves: one agrees, one fails and is added again, and one was added
-- right after the local update.
use trpo.Prelude.{
  ℕ, ◌≤◌, ◌≡◌, inl, inr, refl, List, [], ◌∷◌, false, Option, none, some, All, ◌==◌, if◌then◌else◌,
  arith, sym,
}
use trpo.Prelude.Failure.{Error, text, ctx, ok}
use trpo.Master.{Managed, remove_slave}
use trpo.Master.Pool.{is_number, total, occurrences, room}
use trpo.Master.Stale.{ends}
use trpo.Master.Update.{
  Local, Ending, local_update, slave_update, Verdict, Answer, sum, failure, chosen, fail_slave,
  master_update,
}
use trpo.Master.Versions.{update_versions}

abbrev at : ℕ → ℕ → Managed
at k v = record { id = k; version = v; working = false }

abbrev three : List Managed
three = at 4 1 ∷ at 9 1 ∷ at 5 2 ∷ []

abbrev local : Local
local = record { version = 2; checksum = 77; error = none }

abbrev answer : ℕ → Answer
answer k = if k == 4 then sum 77 else failure (text "lost")

abbrev slave_error : ℕ → Error → Verdict
slave_error k e = record { error = some e; readd = k == 9 }

abbrev order : List Ending
order = slave_update 9 ∷ local_update ∷ slave_update 4 ∷ []

update_test :
    master_update answer slave_error local 1 order three 10
    ≡ ok (some (ctx "update" (text "lost")), at 4 2 ∷ at 5 2 ∷ at 10 2 ∷ [])
unfolding master_update fail_slave remove_slave
update_test = refl

distinct : (k : ℕ) → occurrences k three ≤ room k 10
distinct k = ground arith

taking_part : (ks : List ℕ) → ok (4 ∷ 9 ∷ []) ≡ ok ks → 4 ∷ 9 ∷ [] ≡ ks
taking_part ks e = cc

complete :
    (ks : List ℕ) (k : ℕ) → chosen 1 three ≡ ok ks → total (ends k) order ≡ total (is_number k) ks
unfolding chosen
complete ks k e = rw (sym (taking_part ks e)) (omega arith)

update_versions_example :
    (e : Option Error) × (pool' : List Managed) × (master_update answer slave_error local 1 order
        three 10
      ≡ ok (e, pool'))
    × All (λ m. m.version ≡ 2) pool'
update_versions_example =
    update_versions answer slave_error local 1 order three 10 (omega arith)
      (inl refl, (inl refl, (inr refl, tt))) distinct complete
