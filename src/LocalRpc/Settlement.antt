-- ===== src/LocalRpc/Settlement.antt =====
-- How a request over the socket ends.
use benchhand.Prelude.{
  ℕ, Bool, true, false, Option, none, List, [], ◌∷◌, ◌++◌, if◌then◌else◌, ◌≤◌, length, any, Result,
  ◌≡◌, refl, ◌⊎◌, inl, inr, arith, Bool-cases, length-append, ◌∙◌, sym, subst, ap,
}
use benchhand.Prelude.Text.{Text}
use benchhand.Contracts.Value.{Value}
use benchhand.Contracts.Schema.{Schema, Thrown}
use benchhand.LocalRpc.{max_response_bytes, Signal}
use benchhand.LocalRpc.Transport.{
  Outcome, RequestState, TransportEvent, caller_aborts, deadline_fires, response_data, response_end,
  response_failed, request_failed, open_request, settle_with, receive, receive_chunk,
  abort_by_caller, fire_deadline, deliver, deliver_all,
}

-- The state between two events: nothing is settled and nothing called, or one outcome is settled,
-- and then the timer and the listener are gone. The kept chunks are within the limit.
pub record IsSound (s : RequestState) : Type 0 where
  pub open_or_settled :
      ((s.settled ≡ false) × (s.outcomes ≡ []))
      ⊎ ((o : Outcome) × (s.settled ≡ true)
          × (s.outcomes ≡ o ∷ [])
          × (s.timer ≡ none)
          × (s.listening ≡ false))
  pub kept : length s.chunks ≤ s.bytes
  pub bounded : length s.chunks ≤ max_response_bytes

-- An event after which the call is over.
abbrev pub is_last : TransportEvent → Bool
is_last caller_aborts = false
is_last deadline_fires = false
is_last (response_data chunk) = false
is_last response_end = true
is_last (response_failed message) = true
is_last (request_failed code message) = true

settle_with-done : (o : Outcome) (s : RequestState) → s.settled ≡ true → settle_with o s ≡ s
unfolding settle_with
settle_with-done o s done = rw done

pub settle_with-fresh :
    (o : Outcome) (s : RequestState)
    → s.settled ≡ false
    → settle_with o s
      ≡ record s { settled = true; timer = none; listening = false; outcomes = o ∷ s.outcomes }
unfolding settle_with
settle_with-fresh o s fresh = rw fresh

settle_with-IsSound : (o : Outcome) (s : RequestState) → IsSound s → IsSound (settle_with o s)
settle_with-IsSound o s sound = elim sound.open_or_settled [
  | inl (fresh, none_yet) ↦ subst IsSound (sym (settle_with-fresh o s fresh)) (record {
    open_or_settled = inr (o, refl, ap (λ later. o ∷ later) none_yet, refl, refl);
    kept = sound.kept;
    bounded = sound.bounded;
  })
  | inr (o', done, one, unarmed, deaf) ↦ subst IsSound (sym (settle_with-done o s done)) sound
]

abort_by_caller-IsSound : (s : RequestState) → IsSound s → IsSound (abort_by_caller s)
unfolding abort_by_caller
abort_by_caller-IsSound s sound = elim sound.open_or_settled [
  | inl (fresh, none_yet) ↦ record {
    open_or_settled = inl (ground arith, ground arith);
    kept = ground (arith, sound.kept);
    bounded = ground (arith, sound.bounded);
  }
  | inr (o, done, one, unarmed, deaf) ↦
      subst
        (λ b. IsSound (
          if b
          then record s { cancelled_by_caller = true; listening = false; aborted = true }
          else s))
        (sym deaf) sound
]

fire_deadline-IsSound : (s : RequestState) → IsSound s → IsSound (fire_deadline s.timer s)
unfolding fire_deadline
fire_deadline-IsSound s sound = elim sound.open_or_settled [
  | inl (fresh, none_yet) ↦ record {
    open_or_settled = inl (ground arith, ground arith);
    kept = ground (arith, sound.kept);
    bounded = ground (arith, sound.bounded);
  }
  | inr (o, done, one, unarmed, deaf) ↦ subst (λ t. IsSound (fire_deadline t s)) (sym unarmed) sound
]

receive-IsSound : (chunk : Text) (s : RequestState) → IsSound s → IsSound (receive_chunk chunk s)
unfolding receive_chunk receive
receive-IsSound chunk s sound = elim sound.open_or_settled [
  | inl (fresh, none_yet) ↦ record {
    open_or_settled = inl (ground arith, ground arith);
    kept = ground (arith, sound.kept, length-append s.chunks chunk);
    bounded = ground (arith, sound.kept, sound.bounded, length-append s.chunks chunk);
  }
  | inr (o, done, one, unarmed, deaf) ↦ record {
    open_or_settled = inr (o, ground arith, ground arith, ground arith, ground arith);
    kept = ground (arith, sound.kept, length-append s.chunks chunk);
    bounded = ground (arith, sound.kept, sound.bounded, length-append s.chunks chunk);
  }
]

settled_keeps :
    {s : RequestState} {o : Outcome}
    → IsSound s
    → s.outcomes ≡ o ∷ []
    → (s.settled ≡ true) × (s.timer ≡ none) × (s.listening ≡ false)
settled_keeps {o} sound one = elim sound.open_or_settled [
  | inl (fresh, none_yet) ↦ absurd cc
  | inr (o', done, one', unarmed, deaf) ↦ (done, unarmed, deaf)
]

module _ (check : Schema → Value → Bool) (decode : Text → Result Thrown Value)
    (request_id : Value) where
  pub deliver-IsSound :
      (event : TransportEvent) (s : RequestState)
      → IsSound s
      → IsSound (deliver check decode request_id event s)
  unfolding deliver
  deliver-IsSound caller_aborts s sound = abort_by_caller-IsSound s sound
  deliver-IsSound deadline_fires s sound = fire_deadline-IsSound s sound
  deliver-IsSound (response_data chunk) s sound = receive-IsSound chunk s sound
  deliver-IsSound response_end s sound = settle_with-IsSound _ s sound
  deliver-IsSound (response_failed message) s sound = settle_with-IsSound _ s sound
  deliver-IsSound (request_failed code message) s sound = settle_with-IsSound _ s sound

  deliver_all-IsSound :
      (events : List TransportEvent) (s : RequestState)
      → IsSound s
      → IsSound (deliver_all check decode request_id events s)
  unfolding deliver_all
  deliver_all-IsSound [] s sound = sound
  deliver_all-IsSound (event ∷ events) s sound =
      deliver_all-IsSound events _ (deliver-IsSound event s sound)

  deliver-settled :
      (event : TransportEvent) (s : RequestState)
      → s.settled ≡ true
      → ((deliver check decode request_id event s).settled ≡ true)
        × ((deliver check decode request_id event s).outcomes ≡ s.outcomes)
  unfolding deliver abort_by_caller fire_deadline receive_chunk receive settle_with
  deliver-settled caller_aborts s done = ground arith
  deliver-settled deadline_fires s done = ground arith
  deliver-settled (response_data chunk) s done = ground arith
  deliver-settled response_end s done = ground arith
  deliver-settled (response_failed message) s done = ground arith
  deliver-settled (request_failed code message) s done = ground arith

  pub deliver_all-settled :
      (events : List TransportEvent) (s : RequestState)
      → s.settled ≡ true
      → ((deliver_all check decode request_id events s).settled ≡ true)
        × ((deliver_all check decode request_id events s).outcomes ≡ s.outcomes)
  unfolding deliver_all
  deliver_all-settled [] s done = (done, refl)
  deliver_all-settled (event ∷ events) s done =
      let (still, same) = deliver-settled event s done in
      let (end, later) = deliver_all-settled events _ still in (end, later ∙ same)

  deliver_all-append :
      (before after : List TransportEvent) (s : RequestState)
      → deliver_all check decode request_id (before ++ after) s
        ≡ deliver_all check decode request_id after (deliver_all check decode request_id before s)
  unfolding deliver_all
  deliver_all-append [] after s = refl
  deliver_all-append (event ∷ before) after s = deliver_all-append before after _

  deliver-last :
      (event : TransportEvent) (s : RequestState)
      → is_last event ≡ true
      → (deliver check decode request_id event s).settled ≡ true
  unfolding deliver settle_with
  deliver-last caller_aborts s last = absurd cc
  deliver-last deadline_fires s last = absurd cc
  deliver-last (response_data chunk) s last = absurd cc
  deliver-last response_end s last = ground arith
  deliver-last (response_failed message) s last = ground arith
  deliver-last (request_failed code message) s last = ground arith

  deliver_all-last :
      (events : List TransportEvent) (s : RequestState)
      → any is_last events ≡ true
      → (deliver_all check decode request_id events s).settled ≡ true
  unfolding deliver_all
  deliver_all-last [] s last = absurd cc
  deliver_all-last (event ∷ events) s last = elim (Bool-cases (is_last event)) [
    | inl here ↦ (deliver_all-settled events _ (deliver-last event s here)).0
    | inr later ↦ deliver_all-last events _ (rw later at last)
  ]

  module _ (deadline : Option ℕ) (now : ℕ) (caller : Signal) where
    abbrev pub after_events : List TransportEvent → RequestState
    after_events events =
        deliver_all check decode request_id events (open_request deadline now caller)

    pub open_request-IsSound : IsSound (open_request deadline now caller)
    unfolding open_request
    open_request-IsSound = record {
      open_or_settled = inl (refl, refl);
      kept = omega arith;
      bounded = omega arith;
    }

    after_events-IsSound : (events : List TransportEvent) → IsSound (after_events events)
    after_events-IsSound events = deliver_all-IsSound events _ open_request-IsSound

    -- Once the promise of a request has been resolved or rejected, it is the only time: whatever
    -- callbacks come later, no other outcome is reported, the deadline timer is cleared and the
    -- listener on the caller's signal is removed.
    pub settles_once :
        (before after : List TransportEvent) (o : Outcome) (others : List Outcome)
        → (after_events before).outcomes ≡ o ∷ others
        → ((after_events (before ++ after)).outcomes ≡ o ∷ [])
          × ((after_events (before ++ after)).timer ≡ none)
          × ((after_events (before ++ after)).listening ≡ false)
    settles_once before after o others reported =
        elim (after_events-IsSound before).open_or_settled [
          | inl (fresh, none_yet) ↦ absurd cc
          | inr (o', done, one, unarmed, deaf) ↦
              let joined = deliver_all-append before after (open_request deadline now caller) in
              let same = (deliver_all-settled after (after_events before) done).1 in
              let first : o ∷ [] ≡ o' ∷ [] = cc in
              let last : (after_events (before ++ after)).outcomes ≡ o ∷ [] =
                ap (λ s. s.outcomes) joined ∙ same ∙ one ∙ sym first in
              let (_, cleared, removed) =
                settled_keeps (after_events-IsSound (before ++ after)) last in
              (last, cleared, removed)
        ]

    -- A request of which the response ends, the response fails or the request fails is settled:
    -- exactly one outcome has been reported, however these and the other callbacks are ordered,
    -- and no more than the maximum size of a response has been kept.
    pub ends_settled :
        (events : List TransportEvent)
        → any is_last events ≡ true
        → ((o : Outcome) × ((after_events events).outcomes ≡ o ∷ []))
          × (length (after_events events).chunks ≤ max_response_bytes)
    ends_settled events last =
        let done = deliver_all-last events (open_request deadline now caller) last in
        let sound = after_events-IsSound events in
        elim sound.open_or_settled [
          | inl (fresh, none_yet) ↦ absurd cc
          | inr (o, settled, one, unarmed, deaf) ↦ ((o, one), sound.bounded)
        ]
