-- ===== src/Rpc/Coordinator/Turns.antt =====
-- While no leader is known the members are asked in turn.
use dingo_sdk.Base.{
  if◌then◌else◌, ℕ, zero, suc, ◌+◌, ◌%◌, ◌^◌, ◌<◌, ◌≤◌, ◌==◌, true, false, List, [], ◌∷◌, Option,
  none, some, ltb_yes, ◌≡◌, refl, ap, ◌∙◌, subst, All, Bool-cases, inl, inr, arith, get_elem?,
  length,
}
use dingo_sdk.Outcome.{Outcome, done, Returns, Returns->>=, Returns-map, ◌>>=◌}
use dingo_sdk.Status.{is_ok, code_is_ok, network_error}
use dingo_sdk.Region.{EndPoint, is_valid, no_end_point, end_point_eqb}
use dingo_sdk.Region.Leader.{end_point_eqb→eq, end_point_eqb_refl}
use dingo_sdk.Region.Replicas.{Valid}
use dingo_sdk.Rpc.{ErrorCode, no_error}
use dingo_sdk.Rpc.Coordinator.{
  MetaMemberInfo, mark_leader, mark_follower, pick_next_leader, next_member, is_member, with_member,
  Reply, Calling, prepare_rpc, need_pick_leader, attempt, on_error, send_coordinator_rpc,
  send_coordinator_rpc_call_back, retry_or_fire, do_async_call, go_on, again, is_retried, resend,
}
use dingo_sdk.Rpc.Coordinator.Members.{HasMembers, mark_leader-HasMembers}
use dingo_sdk.Rpc.Coordinator.Ends.{succeeds}
use native.Mathlib.Nat.{mod-lt}

get_elem?-is_member :
    (xs : List EndPoint) (n : ℕ) (x : EndPoint) → get_elem? xs n ≡ some x → is_member x xs ≡ true
unfolding is_member
get_elem?-is_member [] n x h = cc
get_elem?-is_member (y ∷ ys) zero x h =
    let q : y ≡ x = ground (arith, h) in
    subst (λ z. is_member z (y ∷ ys) ≡ true) q (rw (end_point_eqb_refl y) refl)
get_elem?-is_member (y ∷ ys) (suc n) x h = ground (arith, get_elem?-is_member ys n x h)

get_elem?-Valid :
    (xs : List EndPoint) (n : ℕ) (x : EndPoint) → All Valid xs → get_elem? xs n ≡ some x → Valid x
get_elem?-Valid [] n x a h = cc
get_elem?-Valid (y ∷ ys) zero x a h = let q : y ≡ x = ground (arith, h) in subst Valid q a.0
get_elem?-Valid (y ∷ ys) (suc n) x a h = get_elem?-Valid ys n x a.1 h

get_elem?_below :
    {A : Type 0} (xs : List A) (n : ℕ) → n < length xs → (x : A) × (get_elem? xs n ≡ some x)
get_elem?_below [] n h = absurd (ground (arith, h))
get_elem?_below (x ∷ xs) zero h = (x, refl)
get_elem?_below (x ∷ xs) (suc n) h = get_elem?_below xs n (omega (arith, h))

-- The member whose turn comes after `d` others.
abbrev pub turn : ℕ → MetaMemberInfo → Option EndPoint
turn d i = get_elem? i.members ((i.next + d) % length i.members)

-- No leader is known, and a member is to be picked.
pub record Seeks (c : Calling) : Type 0 where
  pub members : HasMembers c.meta_member_info
  pub unknown : is_valid c.meta_member_info.leader ≡ false
  pub picks : need_pick_leader c ≡ true

abbrev AtTurn : Calling → EndPoint → Type 0
AtTurn c x =
    get_elem? c.meta_member_info.members
      (c.meta_member_info.next % length c.meta_member_info.members)
    ≡ some x

picked : EndPoint → Calling → Calling
picked x c = record c {
  controller = record c.controller {
    meta_member_info = record c.meta_member_info { next = (c.meta_member_info.next + 1) % 2 ^ 64 };
  };
  rpc = record c.rpc { end_point = x };
}

prepare_rpc-picked :
    (c : Calling) (x : EndPoint)
    → Seeks c
    → AtTurn c x
    → Valid x
    → prepare_rpc c ≡ done (picked x c)
unfolding prepare_rpc pick_next_leader next_member picked
prepare_rpc-picked c x s t v = rw (s.picks, s.unknown, ltb_yes _ _ s.members.0, t, v) refl

module _ (number : ErrorCode → ℕ) (net : ℕ → EndPoint → Reply) where
  -- The end point answered.
  record Reached (e : EndPoint) (c d : Calling) : Type 0 where
    fine : is_ok d.status ≡ true
    end_point : d.rpc.end_point ≡ e
    sent : d.rpc.sent ≡ suc c.rpc.sent

  -- The member that was asked did not answer.
  record Missed (c d : Calling) : Type 0 where
    seeks : Seeks d
    code : d.status.code ≡ network_error
    same : d.meta_member_info.members ≡ c.meta_member_info.members
    next : d.meta_member_info.next ≡ (c.meta_member_info.next + 1) % 2 ^ 64
    sent : d.rpc.sent ≡ suc c.rpc.sent
    retry_times : d.rpc.retry_times ≡ c.rpc.retry_times

  attempt-Reached :
      (c : Calling) (x : EndPoint)
      → Seeks c
      → AtTurn c x
      → succeeds number net (net c.rpc.sent x) ≡ true
      → Returns (attempt number net c) (Reached x c)
  unfolding attempt send_coordinator_rpc send_coordinator_rpc_call_back on_error picked
  attempt-Reached c x s t a =
      let v : Valid x = get_elem?-Valid _ _ x s.members.1 t in
      rw (prepare_rpc-picked c x s t v, success, accepted)
        (Returns->>= _ (Reached x c) (mark_leader x (picked x c).meta_member_info) _
          (mark_leader-HasMembers x (picked x c).meta_member_info v s.members)
          λ i w. record { fine = refl; end_point = refl; sent = refl })
    where
      success : is_ok (net c.rpc.sent x).status ≡ true
      success = ground (arith, a)

      accepted : ((net c.rpc.sent x).error.errcode == number no_error) ≡ true
      accepted = ground (arith, a)

  attempt-Missed :
      (c : Calling) (x : EndPoint)
      → Seeks c
      → AtTurn c x
      → (net c.rpc.sent x).status.code ≡ network_error
      → Returns (attempt number net c) (Missed c)
  unfolding attempt send_coordinator_rpc send_coordinator_rpc_call_back picked mark_follower
      with_member
  attempt-Missed c x s t a =
      let v : Valid x = get_elem?-Valid _ _ x s.members.1 t in
      rw (prepare_rpc-picked c x s t v, a, mark_follower, v, get_elem?-is_member _ _ x t)
        (record {
          seeks = record {
            members = s.members;
            unknown = unknown;
            picks = unfold need_pick_leader in ground (arith, v);
          };
          code = refl;
          same = refl;
          next = refl;
          sent = refl;
          retry_times = refl;
        })
    where
      unknown :
          is_valid (
            if end_point_eqb c.meta_member_info.leader x
            then no_end_point
            else c.meta_member_info.leader)
          ≡ false
      unknown = unfold is_valid in ground (arith, s.unknown)

  abbrev pub Answered : EndPoint → ℕ → Calling → Option Calling → Type 0
  Answered e d c none = ⊥
  Answered e d c (some c') =
      (is_ok c'.status ≡ true) × (c'.rpc.end_point ≡ e) × (c'.rpc.sent ≤ suc (c.rpc.sent + d))

  module _ (e : EndPoint) (answers : (n : ℕ) → succeeds number net (net n e) ≡ true)
      (silent : (n : ℕ) (x : EndPoint)
        → end_point_eqb x e ≡ false
        → (net n x).status.code ≡ network_error)
      (max_retry : ℕ) where
    -- The member asked is the one that answers.
    reached-Answered :
        (d : ℕ) (c : Calling) (f : Calling → Outcome (Option Calling))
        → Seeks c
        → AtTurn c e
        → Returns
            (attempt number net c >>= λ x. go_on f (retry_or_fire max_retry x))
            (Answered e d c)
    reached-Answered d c f s t =
        Returns->>= (Reached e c) (Answered e d c) (attempt number net c) _
          (attempt-Reached c e s t (answers _))
          λ x r. unfold retry_or_fire in rw (r.fine) (r.fine, r.end_point, omega (arith, r.sent))

    asked : (c : Calling) → Seeks c → (x : EndPoint) × AtTurn c x
    asked c s = get_elem?_below c.meta_member_info.members _ (mod-lt _ s.members.0)

    Missed-again :
        (c x : Calling)
        → Missed c x
        → c.rpc.retry_times < max_retry
        → retry_or_fire max_retry x ≡ again (resend x)
    unfolding retry_or_fire
    Missed-again c x m b =
        let lt : x.rpc.retry_times < max_retry = omega (arith, m.retry_times, b) in
        rw (ap code_is_ok m.code, ap is_retried m.code, ltb_yes _ _ lt) refl

    still : (c x : Calling) → Missed c x → Seeks (resend x)
    still c x m = record {
      members = m.seeks.members;
      unknown = m.seeks.unknown;
      picks = unfold need_pick_leader in m.seeks.picks;
    }

    later :
        (d : ℕ) (c x : Calling)
        → Missed c x
        → (o : Option Calling) → Answered e d (resend x) o
        → Answered e (suc d) c o
    later d c x m none h = h
    later d c x m (some y) h = (h.0, h.1, omega (arith, h.2, m.sent))

    next_turn :
        (d : ℕ) (c x : Calling)
        → Missed c x
        → c.meta_member_info.next + 1 < 2 ^ 64
        → turn (suc d) c.meta_member_info ≡ some e
        → turn d (resend x).meta_member_info ≡ some e
    next_turn d c x m n t =
        let same : x.meta_member_info.next + d ≡ c.meta_member_info.next + suc d =
          omega (arith, m.next, n) in
        ap (λ k. get_elem? x.meta_member_info.members (k % length x.meta_member_info.members)) same
        ∙ ap (λ l. get_elem? l ((c.meta_member_info.next + suc d) % length l)) m.same
        ∙ t

    -- With no leader known and a member to be picked, when the member whose turn comes after `d` others
    -- answers every request, every other end point fails with a network error, the turns do not
    -- overflow and `d` retries are left, the call on fuel for `d + 1` attempts returns OK from that
    -- member after at most `d + 1` requests.
    pub do_async_call-Answered :
        (d : ℕ) (c : Calling)
        → Seeks c
        → turn d c.meta_member_info ≡ some e
        → c.meta_member_info.next + d < 2 ^ 64
        → c.rpc.retry_times + d ≤ max_retry
        → Returns (do_async_call number net max_retry (suc d) c) (Answered e d c)
    unfolding do_async_call
    do_async_call-Answered zero c s t n b = reached-Answered zero c _ s (
        ap (λ k. get_elem? c.meta_member_info.members (k % length c.meta_member_info.members))
          (omega arith)
        ∙ t)
    do_async_call-Answered (suc d) c s t n b = elim (Bool-cases (end_point_eqb (asked c s).0 e)) [
      | inl hit ↦
          reached-Answered (suc d) c _ s
            (subst (AtTurn c) (end_point_eqb→eq (asked c s).0 e hit) (asked c s).1)
      | inr miss ↦
          Returns->>= (Missed c) (Answered e (suc d) c) (attempt number net c) _
            (attempt-Missed c (asked c s).0 s (asked c s).1 (silent _ _ miss))
            λ x m. rw (Missed-again c x m (omega (arith, b))) (
              Returns-map (Answered e d (resend x)) (Answered e (suc d) c) _ (later d c x m) (
                do_async_call-Answered d (resend x) (still c x m)
                  (next_turn d c x m (omega (arith, n)) t) (omega (arith, m.next, n))
                  (omega (arith, m.retry_times, b))))
    ]
