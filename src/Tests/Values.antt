-- ===== src/Tests/Values.antt =====
-- The theorems on the values handler's list.
use fds.Prelude.{
  ℕ, ◌≡◌, ◌<◌, ◌≤◌, ◌+◌, refl, List, [], ◌∷◌, ◌++◌, none, some, arith, update, length,
}
use fds.Config.{leader_max_queue_length}
use fds.Values.{Pending, vh_enqueue_value, vh_shutdown}
use fds.Values.Chain.{IsList, Holds, values_at}
use fds.Values.Queue.{vh_enqueue_value_lem, vh_shutdown_lem}

abbrev two_at : List ℕ
two_at = 5 ∷ 6 ∷ []

-- The wrappers at 5 and 6 are linked.
abbrev two_values : Pending
two_values = record {
  heap =
      update (λ p. record { value = 1 ∷ []; next = none }) 5
        (record { value = 2 ∷ []; next = some 6 });
  vh_list_size = 2;
  vh_list_head = some 5;
  vh_list_tail = some 6;
  dropped_count = 0;
}

two_values-IsList : IsList two_values two_at
two_values-IsList = record {
  linked = (refl, (refl, refl));
  ended = refl;
  distinct = ((ground arith, tt), (tt, tt));
  counted = refl;
}

vh_enqueue_value_lem_example :
    (length two_at ≤ leader_max_queue_length
      → (st' : Pending) × (vh_enqueue_value 9 (4 ∷ []) two_values ≡ some st')
        × Holds st' (two_at ++ 9 ∷ []) (values_at two_values.heap two_at ++ (4 ∷ []) ∷ []))
    × (leader_max_queue_length < length two_at
        → vh_enqueue_value 9 (4 ∷ []) two_values
          ≡ some (record two_values { dropped_count = two_values.dropped_count + 1 }))
vh_enqueue_value_lem_example =
    vh_enqueue_value_lem 9 two_at (4 ∷ []) two_values two_values-IsList
      (ground arith, (ground arith, tt))

vh_shutdown_lem_example :
    (st' : Pending) × (vh_shutdown 3 two_values ≡ some (values_at two_values.heap two_at, st'))
    × IsList st' []
vh_shutdown_lem_example = vh_shutdown_lem 3 two_values two_at two_values-IsList (ground arith)
