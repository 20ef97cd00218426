-- ===== src/Cache/Tests.antt =====
-- The pool of src/Cache.h on concrete inputs.
use aiengine_rewritten_clean.Prelude.{ℕ, ◌≡◌, refl, none, some, [], ◌∷◌, arith}
use aiengine_rewritten_clean.Prelude.Int.{pos, negsuc}
use aiengine_rewritten_clean.Cache.{
  Cache, ok, fault, update, init, create, release, acquire, destroy,
}
use aiengine_rewritten_clean.Cache.Inv.{
  IsValid, acquires, releases, creates, destroys, run, run-IsValid,
}
use aiengine_rewritten_clean.Cache.Stack.{
  Client, take_one, give_back, act_all, AllAlive, act_all-AllAlive,
}
use aiengine_rewritten_clean.Cache.Faults.{acquire-release_null}

abbrev wipe : ℕ → ℕ
wipe n = 0

-- A pool of three objects.
abbrev three : Cache ℕ
three = record {
  items = some 0 ∷ some 1 ∷ some 2 ∷ [];
  total = 3;
  total_acquires = 0;
  total_releases = 0;
  total_fails = 0;
  heap = λ p. 7;
  fresh = 3;
}

-- The same with one and with two objects handed out.
abbrev two : Cache ℕ
two = record three { total = 2; total_acquires = 1; heap = update three.heap 2 0 }

abbrev one : Cache ℕ
one = record two { total = 1; total_acquires = 2; heap = update two.heap 1 0 }

three-IsValid : IsValid three
three-IsValid = record { bounded = omega arith; no_null = tt }

create_three : (create {A = ℕ} 7 (pos 3) (init 0)).items ≡ three.items
unfolding create
create_three = refl

destroy_two : (destroy {A = ℕ} (pos 2) three).items ≡ some 0 ∷ []
unfolding destroy
destroy_two = refl

run-IsValid_example :
    (c : Cache ℕ) × (run 7 wipe three
        (acquires ∷ destroys (pos 1) ∷ releases 2 ∷ creates (negsuc 4) ∷ [])
      ≡ ok c)
    × IsValid c
run-IsValid_example =
    run-IsValid 7 wipe three (acquires ∷ destroys (pos 1) ∷ releases 2 ∷ creates (negsuc 4) ∷ [])
      three-IsValid

act_all-AllAlive_example :
    (t : Client ℕ) × (act_all wipe
        (record { pool = three; held = [] })
        (take_one ∷ take_one ∷ give_back ∷ [])
      ≡ ok t)
    × AllAlive t.pool t.held
    × (t.pool.items ≡ three.items)
act_all-AllAlive_example =
    act_all-AllAlive wipe three (take_one ∷ take_one ∷ give_back ∷ []) three-IsValid refl

acquire-release_null_example : acquire wipe (release none two) ≡ fault
acquire-release_null_example = acquire-release_null wipe two (omega arith)
