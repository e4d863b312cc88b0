-- ===== src/Master/AddingTests.antt =====
-- `AddSlave` of a slave that takes small data only.
use trpo.Prelude.{ℕ, ◌+◌, ◌≡◌, refl, [], ◌∷◌, true, false, Option, none, some, ltb, if◌then◌else◌}
use trpo.Prelude.Int.{ℤ, pos, int_float}
use trpo.Prelude.Failure.{Error, text, ctx, ok}
use trpo.Noise.{Noise}
use trpo.Params.{Params, safe_data}
use trpo.Master.{Managed}
use trpo.Master.Rounds.{Round, start}
use trpo.Master.Adding.{Adding, get_slave_added, slaves, call_slave_error, add_slave_to}

abbrev number : Params ℕ ℕ ℕ
number = record {
  data_of = λ w. ok w;
  set_data = λ w d. (none, d);
  update = λ w m. w + m;
  checksum = λ w. ok w;
}

abbrev noise : Noise ℤ
noise = record { seed = 3; data_of = pos 3 ∷ pos 4 ∷ []; len_log = 1 }

abbrev init : ℕ → ℕ → ℕ → Option Error
init d seed len = if ltb d 10 then none else some (text "large")

abbrev none_yet : Adding
none_yet = get_slave_added (record { pool = []; fresh = 0; slave_added = none })

add_test :
    add_slave_to number (record { version = 6; params = 9 }) noise init none_yet
    ≡ some (
      none,
      record {
        pool = record { id = 0; version = 6; working = false } ∷ [];
        fresh = 1;
        slave_added = some true;
      },
    )
unfolding add_slave_to safe_data
add_test = refl

refused_test :
    add_slave_to number (record { version = 6; params = 12 }) noise init none_yet
    ≡ some (some (ctx "add slave" (text "large")), none_yet)
unfolding add_slave_to safe_data
refused_test = refl

echo_test : call_slave_error none 4 (text "lost") ≡ some (text "lost")
echo_test = refl

slaves_test :
    slaves (record {
      pool = record { id = 5; version = 6; working = false } ∷ [];
      fresh = 6;
      slave_added = none;
    })
    ≡ 5 ∷ []
slaves_test = refl

abbrev before : Round ℤ
before = start [] 0 (record { scale = pos 3; seed = 7 } ∷ [])

abbrev new_slave : Managed
new_slave = record { id = 0; version = 6; working = false }

abbrev after : Adding
after = record { pool = new_slave ∷ []; fresh = 1; slave_added = some true }

added_once :
    add_slave_to number
      (record { version = 6; params = 9 })
      noise
      init
      (record { pool = []; fresh = 0; slave_added = some false })
    ≡ some (none, after)
unfolding add_slave_to safe_data
added_once = refl
