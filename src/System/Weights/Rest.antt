-- ===== src/System/Weights/Rest.antt =====
-- The deliveries without a new tick or trigger, and the state in which they end.
use go2rtc_manager.Prelude.{
  ℕ, zero, suc, ◌+◌, ◌≤◌, ◌<◌, ◌≡◌, refl, ap, subst, inl, inr, ◌⊎◌, Bool-cases, false, List, [],
  ◌∷◌, ◌++◌, total-append, total-middle, arith, ◌==◌, ==_iff,
}
use go2rtc_manager.Time.{Time}
use go2rtc_manager.Config.{Config}
use go2rtc_manager.Message.{Pid, Message}
use go2rtc_manager.Effect.{Effect}
use go2rtc_manager.Master.{spawn_children}
use go2rtc_manager.Master
use go2rtc_manager.StreamCleaner
use go2rtc_manager.StreamCount
use go2rtc_manager.Go2Rtc.Calls.{Api}
use go2rtc_manager.Go2Rtc.Actor
use go2rtc_manager.System.{
  System, master_pid, go2rtc_pid, cleaner_pid, count_pid, Envelope, mailed, context, deliver, start,
  IsYaml, delivers, Reach, next,
}
use go2rtc_manager.System.Tokens.{weigh, fetching, working}
use go2rtc_manager.System.Counting.{tally}
use go2rtc_manager.System.Cycle.{Reach-Balanced, running_iff_under_way}
use go2rtc_manager.System.Counting.Unstuck.{Reach-Awaited, counter_never_stuck}
use go2rtc_manager.System.Weights.{
  weight, weight_of, ListsFew, Master-lightens, StreamCleaner-lightens, StreamCount-lightens,
  Go2Rtc-lightens,
}

-- Deliveries one after the other, from a go2rtc that lists at most `n` streams each time.
pub data Deliveries (n : ℕ) (s : System) : System → Type 0 where
  nothing : Deliveries n s s
  after :
      {t : System}
      → Deliveries n s t
      → (before : List Envelope) (pid : Pid) (msg : Message) (later : List Envelope)
      → t.mail ≡ before ++ (pid, msg) ∷ later
      → (api : Api) (now : Time) → IsYaml api
      → ListsFew api n
      → Deliveries n s (deliver api now pid msg (record t { mail = before ++ later }))

pub how_many : {n : ℕ} {s t : System} → Deliveries n s t → ℕ
how_many nothing = 0
how_many (after r before pid msg later e api now yaml few) = suc (how_many r)

Deliveries-Reach : {n : ℕ} {s t u : System} → Reach s t → Deliveries n t u → Reach s u
Deliveries-Reach r nothing = r
Deliveries-Reach r (after d before pid msg later e api now yaml few) =
    next (Deliveries-Reach r d) (delivers before pid msg later e api now yaml)

-- With nothing under way nobody runs.
pub record AtRest (s : System) : Type 0 where
  pub mail : s.mail ≡ []
  pub cleaner : s.cleaner.running ≡ false
  pub count : s.count.running ≡ false

empty_AtRest : (cfg : Config) {s : System} → Reach (start cfg) s → s.mail ≡ [] → AtRest s
unfolding weigh
empty_AtRest cfg {s} r e = record {
  mail = e;
  cleaner = elim (Bool-cases s.cleaner.running) [
    | inr off ↦ off
    | inl on ↦
        let busy = (running_iff_under_way cfg r).0.0 on in
        absurd (
          nothing_below (
            subst
              (λ m.
                0
                < weigh (fetching s.cleaner.triggered_at) m
                  + weigh (working s.cleaner.triggered_at) m)
              e busy))
  ];
  count = elim (Bool-cases s.count.running) [
    | inr off ↦ off
    | inl on ↦
        let busy = (counter_never_stuck cfg r on).0 in
        absurd (
          nothing_below (
            subst
              (λ m.
                0
                < tally (fetching s.count.triggered_at) m + tally (working s.count.triggered_at) m)
              e busy))
  ];
}
  where
    nothing_below : 0 < 0 → ⊥
    nothing_below h = ground arith

first_of :
    (m : List Envelope)
    → (m ≡ [])
      ⊎ ((pid : Pid) × (msg : Message) × (later : List Envelope) × (m ≡ (pid, msg) ∷ later))
first_of [] = inl refl
first_of ((pid, msg) ∷ later) = inr (pid, msg, later, refl)

module _ (n : ℕ) where
  passed-lightens :
      (pid : Pid) (msg : Message) (es : List Effect) (xs ys : List Envelope)
      → weight_of n (mailed es) < weight n (pid, msg)
      → weight_of n ((xs ++ ys) ++ mailed es) < weight_of n (xs ++ (pid, msg) ∷ ys)
  passed-lightens pid msg es xs ys h = omega (
    arith,
    total-append (weight n) (xs ++ ys) (mailed es),
    total-middle (weight n) xs (pid, msg) ys,
  )

  other_weight :
      (pid : Pid) (msg : Message)
      → (pid == master_pid) ≡ false
      → (pid == cleaner_pid) ≡ false
      → (pid == count_pid) ≡ false
      → (pid == go2rtc_pid) ≡ false
      → weight n (pid, msg) ≡ 1
  unfolding weight
  other_weight pid msg m c k g = rw (m, c, k, g) refl

  deliver-lightens :
      (api : Api) (now : Time) (pid : Pid) (msg : Message) (s : System) (xs ys : List Envelope)
      → s.cleaner.go2rtc_pid ≡ go2rtc_pid
      → s.count.go2rtc_pid ≡ go2rtc_pid
      → ListsFew api n
      → weight_of n (deliver api now pid msg (record s { mail = xs ++ ys })).mail
        < weight_of n (xs ++ (pid, msg) ∷ ys)
  unfolding deliver
  deliver-lightens api now pid msg s xs ys tc tk few = elim (Bool-cases (pid == master_pid)) [
    | inl e ↦ rw e (
        passed-lightens pid msg
          (Master.receive (context master_pid now) msg (spawn_children s.config 1)) xs ys
          (rw ((==_iff pid master_pid).0 e) (Master-lightens n now msg s.config)))
    | inr m ↦ rw m (elim (Bool-cases (pid == cleaner_pid)) [
      | inl e ↦ rw e (
          passed-lightens pid msg (StreamCleaner.receive (context cleaner_pid now) msg s.cleaner).1
            xs ys
            (rw ((==_iff pid cleaner_pid).0 e) (StreamCleaner-lightens n now msg s.cleaner tc)))
      | inr c ↦ rw c (elim (Bool-cases (pid == count_pid)) [
        | inl e ↦ rw e (
            passed-lightens pid msg (StreamCount.receive (context count_pid now) msg s.count).1 xs
              ys (rw ((==_iff pid count_pid).0 e) (StreamCount-lightens n now msg s.count tk)))
        | inr k ↦ rw k (elim (Bool-cases (pid == go2rtc_pid)) [
          | inl e ↦ rw e (
              passed-lightens pid msg
                (Actor.receive api (context go2rtc_pid now) msg (record { config = s.config })).1 xs
                ys
                (rw ((==_iff pid go2rtc_pid).0 e)
                  (Go2Rtc-lightens n api now msg (record { config = s.config }) few)))
          | inr g ↦ rw g (
              omega (arith, total-middle (weight n) xs (pid, msg) ys, other_weight pid msg m c k g))
        ])
      ])
    ])
  ]

  -- From every state that the system can reach: without a new tick or trigger, any deliveries, in any
  -- order, are at most as many as the weight that they use up of what is under way, if go2rtc's YAML
  -- mappings have a value for each key and it lists at most `n` streams each time.
  pub how_many-le-weight_of :
      (cfg : Config) {s t : System}
      → Reach (start cfg) s
      → (d : Deliveries n s t) → how_many d + weight_of n t.mail ≤ weight_of n s.mail
  unfolding how_many
  how_many-le-weight_of cfg r nothing = omega arith
  how_many-le-weight_of cfg r (after {t} d before pid msg later e api now yaml few) =
      let there = Deliveries-Reach r d in
      omega (
        arith,
        how_many-le-weight_of cfg r d,
        ap (weight_of n) e,
        deliver-lightens api now pid msg t before later (Reach-Balanced cfg there).target
            (Reach-Awaited cfg there).target few,
      )

  -- Delivers the first message under way again and again.
  rest_from :
      (cfg : Config) (api : Api) (now : Time)
      → IsYaml api
      → ListsFew api n
      → (fuel : ℕ) {s t : System} → Reach (start cfg) s
      → Deliveries n s t
      → weight_of n t.mail < fuel
      → (u : System) × Deliveries n s u × AtRest u
  rest_from cfg api now yaml few zero r d enough = absurd (below_zero enough)
    where
      below_zero : {x : ℕ} → x < 0 → ⊥
      below_zero h = ground arith
  rest_from cfg api now yaml few (suc fuel) {s} {t} r d enough = elim (first_of t.mail) [
    | inl e ↦ (t, d, empty_AtRest cfg (Deliveries-Reach r d) e)
    | inr (pid, msg, later, e) ↦
        let there = Deliveries-Reach r d in
        let lighter =
          deliver-lightens api now pid msg t [] later (Reach-Balanced cfg there).target
            (Reach-Awaited cfg there).target few in
        rest_from cfg api now yaml few fuel r (after d [] pid msg later e api now yaml few)
          (omega (arith, lighter, ap (weight_of n) e, enough))
  ]

  -- From every state that the system can reach, the messages under way can all be delivered, and all
  -- that they set off, with no new tick or trigger; then nothing is under way and neither the
  -- cleaner nor the counter runs. go2rtc may answer as it likes, if its YAML mappings have a value for
  -- each key and its list of streams has the bound `n`.
  pub Deliveries-AtRest :
      (cfg : Config) (api : Api) (now : Time)
      → IsYaml api
      → ListsFew api n
      → {s : System} → Reach (start cfg) s
      → (u : System) × Deliveries n s u × AtRest u
  Deliveries-AtRest cfg api now yaml few {s} r =
      rest_from cfg api now yaml few (suc (weight_of n s.mail)) r nothing (omega arith)
