-- ===== src/Frequency/Tests.antt =====
-- The record of src/protocols/frequency/PacketFrequencies.h on concrete payloads.
use aiengine_rewritten_clean.Prelude.{◌≡◌, refl, [], ◌∷◌, arith, take}
use aiengine_rewritten_clean.Frequency.{PacketFrequencies, max_values, reset, index, add_payload}
use aiengine_rewritten_clean.Frequency.Payload.{add_all, all_bytes, Holds, add_all-Holds}

abbrev blank : PacketFrequencies
blank = record { freqs = λ i. 7; used = 9 }

second : index (add_all ((1 ∷ 200 ∷ []) ∷ []) (reset blank)) 1 ≡ 65480
unfolding add_all index add_payload
second = refl

add_all-Holds_example :
    Holds
      (add_all ((1 ∷ 200 ∷ []) ∷ (3 ∷ []) ∷ []) (reset blank))
      (take max_values (all_bytes ((1 ∷ 200 ∷ []) ∷ (3 ∷ []) ∷ [])))
add_all-Holds_example =
    add_all-Holds blank ((1 ∷ 200 ∷ []) ∷ (3 ∷ []) ∷ [])
      ((omega arith, (omega arith, tt)), ((omega arith, tt), tt))
