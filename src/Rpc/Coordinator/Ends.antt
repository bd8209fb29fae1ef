-- ===== src/Rpc/Coordinator/Ends.antt =====
-- A request to the coordinators ends, after a bounded number of sends, with what one of them answered.
use dingo_sdk.Base.{
  ℕ, zero, suc, ◌+◌, ◌<◌, ◌≤◌, ◌==◌, ◌&&◌, Bool, true, false, Option, none, some, ltb, ◌≡◌, refl,
  sym, ap, ◌∙◌, Bool-cases, inl, inr, arith,
}
use dingo_sdk.Outcome.{Outcome, Returns, Returns->>=, Returns-map}
use dingo_sdk.Status.{Code, code_ok, code_is_ok, is_ok}
use dingo_sdk.Region.{EndPoint}
use dingo_sdk.Region.Replicas.{Valid}
use dingo_sdk.Rpc.{ErrorCode, no_error, raft_not_leader}
use dingo_sdk.Rpc.Coordinator.{
  MetaMemberInfo, mark_leader, mark_follower, pick_next_leader, follow_location, Reply, Error,
  Calling, prepare_rpc, need_pick_leader, attempt, on_error, status_for, send_coordinator_rpc,
  send_coordinator_rpc_call_back, retry_or_fire, do_async_call, is_retried, go_on, resend,
}
use dingo_sdk.Rpc.Coordinator.Members.{
  HasMembers, Located, pick_next_leader-Valid, mark_leader-HasMembers, mark_follower-HasMembers,
  follow_location-HasMembers,
}

ok_settled : (k : Code) → code_is_ok k ≡ true → is_retried k ≡ false
ok_settled code_ok h = refl
ok_settled k h = cc

module _ (number : ErrorCode → ℕ) (net : ℕ → EndPoint → Reply) where
  -- The reply is that of an end point which did what was asked.
  abbrev pub succeeds : Reply → Bool
  succeeds r = is_ok r.status && r.error.errcode == number no_error

  -- A success is what the end point that is now held to be the leader answered to the last request.
  abbrev pub Honest : Calling → Type 0
  Honest d =
      is_ok d.status ≡ true
      → (n : ℕ) × (d.rpc.sent ≡ suc n)
        × (succeeds (net n d.rpc.end_point) ≡ true)
        × (d.meta_member_info.leader ≡ d.rpc.end_point)

  -- The state after one more request.
  pub record Attempted (c d : Calling) : Type 0 where
    pub members : HasMembers d.meta_member_info
    pub sent : d.rpc.sent ≡ suc c.rpc.sent
    pub retry_times : d.rpc.retry_times ≡ c.rpc.retry_times
    pub honest : Honest d

  -- The state when the caller gets the status.
  pub record Ended (max_retry : ℕ) (c d : Calling) : Type 0 where
    pub members : HasMembers d.meta_member_info
    pub sends : d.rpc.sent + c.rpc.retry_times ≡ c.rpc.sent + suc d.rpc.retry_times
    pub bounded : d.rpc.retry_times ≤ max_retry
    pub settled : is_retried d.status.code ≡ false
    pub honest : Honest d

  abbrev pub Settles : ℕ → Calling → Option Calling → Type 0
  Settles max_retry c none = ⊥
  Settles max_retry c (some d) = Ended max_retry c d

  Prepared : Calling → Calling → Type 0
  Prepared c p =
      HasMembers p.meta_member_info
      × Valid p.rpc.end_point
      × (p.rpc.sent ≡ c.rpc.sent)
      × (p.rpc.retry_times ≡ c.rpc.retry_times)

  prepare_rpc-Prepared :
      (c : Calling) → HasMembers c.meta_member_info → Returns (prepare_rpc c) (Prepared c)
  unfolding prepare_rpc Prepared
  prepare_rpc-Prepared c h = elim (Bool-cases (need_pick_leader c)) [
    | inl y ↦ rw (y) (
        Returns->>= (λ x. Valid x.0 × HasMembers x.1) (Prepared c)
          (pick_next_leader c.meta_member_info) _ (pick_next_leader-Valid c.meta_member_info h)
          λ x v. rw (v.0) (v.1, v.0, refl, refl))
    | inr n ↦ rw (n) (h, unfold need_pick_leader in ground (arith, n), refl, refl)
  ]

  on_error-HasMembers :
      (err : Error) (e : EndPoint) (i : MetaMemberInfo)
      → Located err.leader_location
      → Valid e
      → HasMembers i
      → i.leader ≡ e
      → Returns (on_error number err e i) λ k.
        HasMembers k.meta_member_info
        × (is_ok k.status ≡ true
            → ((err.errcode == number no_error) ≡ true) × (k.meta_member_info.leader ≡ e))
  unfolding on_error status_for
  on_error-HasMembers err e i l v h q = elim (Bool-cases (err.errcode == number no_error)) [
    | inl y ↦ rw (y) (h, λ _. (refl, q))
    | inr n ↦ rw (n) (elim (Bool-cases (err.errcode == number raft_not_leader)) [
      | inl r ↦ rw (r) (
          Returns->>= HasMembers _ (mark_follower e i) _ (mark_follower-HasMembers e i v h) λ j w.
            Returns->>= HasMembers _ (follow_location err.leader_location j) _
              (follow_location-HasMembers err.leader_location j l w) λ k x. (x, λ z. cc))
      | inr r ↦ rw (r) (h, λ z. ground (arith, z))
    ])
  ]

  -- What the reply to the request `c` has made of it.
  Replied : Reply → Calling → Calling → Type 0
  Replied r c d =
      HasMembers d.meta_member_info
      × (d.rpc ≡ c.rpc)
      × (is_ok d.status ≡ true
          → (succeeds r ≡ true) × (d.meta_member_info.leader ≡ c.rpc.end_point))

  call_back-Replied :
      (r : Reply) (c : Calling)
      → Located r.error.leader_location
      → Valid c.rpc.end_point
      → HasMembers c.meta_member_info
      → Returns (send_coordinator_rpc_call_back number r c) (Replied r c)
  unfolding send_coordinator_rpc_call_back Replied
  call_back-Replied r c l v h = elim (Bool-cases (is_ok r.status)) [
    | inl y ↦ rw (y) (
        Returns->>= _ (Replied r c) (mark_leader c.rpc.end_point c.meta_member_info) _
          (mark_leader-HasMembers c.rpc.end_point c.meta_member_info v h)
          λ i w.
            Returns->>= _ (Replied r c) (on_error number r.error c.rpc.end_point i) _
              (on_error-HasMembers r.error c.rpc.end_point i l v w.0 w.1)
              λ k x. (x.0, refl, λ z. (ground (arith, y, x.1 z), (x.1 z).1)))
    | inr n ↦ rw (n) (
        Returns->>= HasMembers (Replied r c) (mark_follower c.rpc.end_point c.meta_member_info) _
          (mark_follower-HasMembers c.rpc.end_point c.meta_member_info v h)
          λ i w. (w, refl, λ z. cc (n, z)))
  ]

  after_reply :
      (c p d : Calling)
      → Prepared c p
      → Replied (net p.rpc.sent p.rpc.end_point) (send_coordinator_rpc p) d
      → Attempted c d
  unfolding Prepared Replied send_coordinator_rpc
  after_reply c p d w x = record {
    members = x.0;
    sent = ap (λ r. r.sent) x.1 ∙ ap suc w.2;
    retry_times = ap (λ r. r.retry_times) x.1 ∙ w.3;
    honest = λ z.
        let e : d.rpc.end_point ≡ p.rpc.end_point = ap (λ r. r.end_point) x.1 in
        (p.rpc.sent, ap (λ r. r.sent) x.1, rw (e) (x.2 z).0, (x.2 z).1 ∙ sym e);
  }

  pub attempt-Attempted :
      (c : Calling)
      → ((n : ℕ) (e : EndPoint) → Located (net n e).error.leader_location)
      → HasMembers c.meta_member_info
      → Returns (attempt number net c) (Attempted c)
  unfolding attempt send_coordinator_rpc Prepared
  attempt-Attempted c l h =
      Returns->>= (Prepared c) _ (prepare_rpc c) _ (prepare_rpc-Prepared c h) λ p w.
        Returns-map (Replied (net p.rpc.sent p.rpc.end_point) (send_coordinator_rpc p))
          (Attempted c)
          (send_coordinator_rpc_call_back number (net p.rpc.sent p.rpc.end_point)
            (send_coordinator_rpc p))
          (λ d x. after_reply c p d w x)
          (call_back-Replied (net p.rpc.sent p.rpc.end_point) (send_coordinator_rpc p) (l _ _) w.1
            w.0)

  ended :
      (max_retry : ℕ) (c d : Calling)
      → c.rpc.retry_times ≤ max_retry
      → Attempted c d
      → is_retried d.status.code ≡ false
      → Ended max_retry c d
  ended max_retry c d b a s = record {
    members = a.members;
    sends = omega (arith, a.sent, a.retry_times);
    bounded = omega (arith, b, a.retry_times);
    settled = s;
    honest = a.honest;
  }

  Settles-resend :
      (max_retry : ℕ) (c d : Calling)
      → Attempted c d
      → (o : Option Calling) → Settles max_retry (resend d) o
      → Settles max_retry c o
  Settles-resend max_retry c d a none e = e
  Settles-resend max_retry c d a (some x) e = record {
    members = e.members;
    sends = omega (arith, a.sent, a.retry_times, e.sends);
    bounded = e.bounded;
    settled = e.settled;
    honest = e.honest;
  }

  -- After a request the call ends, or goes on with one more.
  go_on-Settles :
      (max_retry : ℕ) (f : Calling → Outcome (Option Calling)) (c d : Calling)
      → c.rpc.retry_times ≤ max_retry
      → Attempted c d
      → (d.rpc.retry_times < max_retry → Returns (f (resend d)) (Settles max_retry (resend d)))
      → Returns (go_on f (retry_or_fire max_retry d)) (Settles max_retry c)
  unfolding retry_or_fire
  go_on-Settles max_retry f c d b a k = elim (Bool-cases (is_ok d.status)) [
    | inl y ↦ rw (y) (ended max_retry c d b a (ok_settled d.status.code y))
    | inr n ↦ rw (n) (elim (Bool-cases (is_retried d.status.code)) [
      | inl t ↦ rw (t) (elim (Bool-cases (ltb d.rpc.retry_times max_retry)) [
        | inl m ↦ rw (m) (
            Returns-map (Settles max_retry (resend d)) (Settles max_retry c) _
              (Settles-resend max_retry c d a) (k (ground (arith, m))))
        | inr m ↦ rw (m) (record {
          members = a.members;
          sends = omega (arith, a.sent, a.retry_times);
          bounded = omega (arith, b, a.retry_times);
          settled = refl;
          honest = λ z. cc;
        })
      ])
      | inr t ↦ rw (t) (ended max_retry c d b a t)
    ])
  ]

  -- A request whose errors name no place without a host, to a controller that knows at least one member
  -- and only valid ones, ends on fuel for one attempt more than the retries that are left: it fails no
  -- CHECK; it was sent once and once more for each retry, of which there are at most the maximum; the
  -- status is not one that is to be retried; and a status that is OK is what the end point that is now
  -- held to be the leader answered to the last request that was sent.
  pub do_async_call-Settles :
      (max_retry fuel : ℕ) (c : Calling)
      → ((n : ℕ) (e : EndPoint) → Located (net n e).error.leader_location)
      → HasMembers c.meta_member_info
      → c.rpc.retry_times ≤ max_retry
      → max_retry < fuel + c.rpc.retry_times
      → Returns (do_async_call number net max_retry fuel c) (Settles max_retry c)
  unfolding do_async_call
  do_async_call-Settles max_retry zero c l h b f = absurd (ground (arith, b, f))
  do_async_call-Settles max_retry (suc fuel) c l h b f =
      Returns->>= (Attempted c) _ (attempt number net c) _ (attempt-Attempted c l h) λ d a.
        go_on-Settles max_retry (do_async_call number net max_retry fuel) c d b a λ m.
          do_async_call-Settles max_retry fuel (resend d) l a.members m
            (omega (arith, f, a.retry_times))
