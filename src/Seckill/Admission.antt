-- ===== src/Seckill/Admission.antt =====
-- What a submission does at the gate: it reserves a unit in Redis, or says why not.
use douyin_mall.Base.{
  ℕ, ◌+◌, String, true, false, none, some, [], ◌∷◌, ◌++◌, ◌≡◌, refl, inl, inr, ◌⊎◌, Int64, le64,
  World, arith, Bool-cases, Option-cases, ltb, suc,
}
use douyin_mall.Seckill.{
  Event, Error, RequestResult, Marker, Delivery, unanswered, rollback_answer, set_redis, Node,
  Answer, submit, execute_local_transaction, atomic_reserve, get_marker, processing_answer,
  failed_result, out_of_stock_reason, duplicate_reason, out_of_stock, duplicate_seckill,
  call_failed, record_rollback_result, lookup_decision,
}
use douyin_mall.Seckill.Soundness.{str_eq_refl}
use douyin_mall.Seckill.Reservation.{taken}

-- The unit and the marker go to the request, which was the first of its user.
abbrev pub Admitted : Event → Node → Answer × World Node → Type 0
Admitted e s o =
    (o.0 ≡ processing_answer e.request_no)
    × (units : Int64) × (get_marker e.activity_id e.user_id s.redis ≡ none)
    × (s.redis.stocks e.activity_id ≡ some units)
    × (le64 units 0 ≡ false)
    × (o.1.store ≡ set_redis (taken e.activity_id e.user_id e.request_no units s.redis) s)

-- The reason is the answer, and a goroutine has still to write it to Redis, which is as it was.
abbrev pub Reason : Event → String → Error → Node → Answer × World Node → Type 0
Reason e reason x s o =
    (o.0 ≡ (some (failed_result e.request_no reason), some x))
    × (o.1.store.redis ≡ s.redis)
    × (o.1.store.writes ≡ s.writes ++ failed_result e.request_no reason ∷ [])

-- There is no unit for a user without a marker, or the user has a marker.
abbrev pub Refused : Event → Node → Answer × World Node → Type 0
Refused e s o =
    (Reason e out_of_stock_reason out_of_stock s o
      × (get_marker e.activity_id e.user_id s.redis ≡ none)
      × ((s.redis.stocks e.activity_id ≡ none)
          ⊎ ((units : Int64) × (s.redis.stocks e.activity_id ≡ some units)
              × (le64 units 0 ≡ true))))
    ⊎ (Reason e duplicate_reason duplicate_seckill s o
        × ((m : Marker) × (get_marker e.activity_id e.user_id s.redis ≡ some m)))

-- The message is not sent.
abbrev pub Unsent : World Node → Answer × World Node → Type 0
Unsent w o = (w.fails w.tick ≡ true) × (o.0 ≡ (none, some call_failed)) × (o.1.store ≡ w.store)

-- The answer of the reservation is lost: it has been tried in Redis, or it has not.
abbrev pub Lost : Delivery → Event → World Node → Answer × World Node → Type 0
Lost d e w o =
    (w.fails (suc w.tick) ≡ true)
    × (o.0 ≡ processing_answer e.request_no)
    × (o.1.store ≡ unanswered d.made e w.store)

-- The message is rolled back and the listener not called: the answer is the decision that stands under
-- the number of the request, or a failure without a reason.
abbrev pub Unheard : ℕ → Delivery → Event → Node → Answer × World Node → Type 0
Unheard now d e s o =
    (d.listened ≡ false)
    × (o.0 ≡ rollback_answer e.request_no (lookup_decision now e.request_no s.decisions))
    × (o.1.store.redis ≡ s.redis)
    × (o.1.store.writes ≡ s.writes)

abbrev pub Submission : ℕ → Delivery → Event → World Node → Answer × World Node → Type 0
Submission now d e w o =
    Admitted e w.store o
    ⊎ Refused e w.store o
    ⊎ Unsent w o
    ⊎ Lost d e w o
    ⊎ Unheard now d e w.store o

-- The listener finds what it has recorded.
lookup-record :
    (now : ℕ) (x : RequestResult) (s : Node)
    → lookup_decision now x.request_no (record_rollback_result now x s).decisions ≡ some x
unfolding lookup_decision record_rollback_result
lookup-record now x s =
    let fresh : ltb (now + 600_000_000_000) now ≡ false = ground arith in
    let self = str_eq_refl x.request_no in rw (fresh, self) refl

-- Whatever fails, a submission takes a unit in Redis for a user without a marker and answers that it
-- is processing; or it says that the activity is sold out or that the user has a marker, where that is
-- so, and leaves Redis as it was and the failed result to a goroutine that has still to write it; or
-- its message is not sent and nothing changes; or the answer of the reservation is lost, the script
-- has run in Redis or has not, and the answer is that it is processing; or the broker rolls the message
-- back without the listener, and Redis is as it was.
pub submit-Submission :
    (now : ℕ) (d : Delivery) (e : Event) (w : World Node) → Submission now d e w (submit now d e w)
unfolding submit execute_local_transaction atomic_reserve record_rollback_result
submit-Submission now d e w = elim (Bool-cases (w.fails w.tick)) [
  | inl down ↦ rw down (inr (inr (inl (refl, refl, refl))))
  | inr up ↦ elim (Bool-cases d.listened) [
    | inr unheard ↦ rw (up, unheard) (inr (inr (inr (inr (refl, refl, refl, refl)))))
    | inl heard ↦ elim (Bool-cases (w.fails (suc w.tick))) [
      | inl lost ↦ rw (up, heard, lost) (inr (inr (inr (inl (refl, refl, refl)))))
      | inr answered ↦ elim (Option-cases (get_marker e.activity_id e.user_id w.store.redis)) [
        | inr (m, found) ↦
            let known = lookup-record now (failed_result e.request_no duplicate_reason) w.store in
            rw (up, heard, answered, found, known) (inr (inl (inr ((refl, refl, refl), (m, refl)))))
        | inl free ↦ elim (Option-cases (w.store.redis.stocks e.activity_id)) [
          | inl missing ↦
              let known =
                lookup-record now (failed_result e.request_no out_of_stock_reason) w.store in
              rw (up, heard, answered, free, missing, known)
                (inr (inl (inl ((refl, refl, refl), refl, inl refl))))
          | inr (units, found) ↦ elim (Bool-cases (le64 units 0)) [
            | inl empty ↦
                let known =
                  lookup-record now (failed_result e.request_no out_of_stock_reason) w.store in
                rw (up, heard, answered, free, found, empty, known)
                  (inr (inl (inl ((refl, refl, refl), refl, inr (units, refl, empty)))))
            | inr positive ↦
                rw (up, heard, answered, free, found, positive)
                  (inl (refl, units, refl, refl, positive, refl))
          ]
        ]
      ]
    ]
  ]
]
