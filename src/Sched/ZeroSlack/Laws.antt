-- ===== src/Sched/ZeroSlack/Laws.antt =====
-- Zero-slack enforcement in src/zsrmv.c: exactly the ready reserves of a lower criticality are
-- asked to stop.
use mathlib.Core.Path.{subst}
use mixed_trust_zsrmv_public.Base.{
  ℕ, zero, suc, ◌≤◌, ◌≡◌, refl, inl, inr, Bool, true, false, ◌&&◌, ◌||◌, none, some, List, [], ◌∷◌,
  arith, Bool-cases, Ptr, ◌∙◌, ap, sym, if◌then◌else◌, ◌==◌, has, length, Distinct, ==→eq,
}
use mixed_trust_zsrmv_public.Base.Int.{ℤ, ltb_ℤ}
use mixed_trust_zsrmv_public.Links.{visits}
use mixed_trust_zsrmv_public.Links.Seg.{Seg}
use mixed_trust_zsrmv_public.Reserve.{Reserve, Table, modify, modify_self, modify_ne, modify_field}
use mixed_trust_zsrmv_public.RmQueue.Laws.{length-le_max}
use mixed_trust_zsrmv_public.Sched.{Kernel, Sched, ask, emit, on, now, wake_up_sched_task}
use mixed_trust_zsrmv_public.Sched.Ready.Order.{IsReady}
use mixed_trust_zsrmv_public.Sched.Budget.{start_meter}
use mixed_trust_zsrmv_public.Sched.ZeroSlack.{
  asked_to_stop, block_reserve, block_lower, critical, enter_critical, zs_enforcement_of,
}

abbrev pub is_lower : Table → ℤ → ℕ → Bool
is_lower table c i = ltb_ℤ (table i).criticality c

-- the entry `i` after the reserves of `xs` with a criticality below `c` have been asked to stop
abbrev pub stopped : Table → ℤ → List ℕ → ℕ → Reserve
stopped table c xs i = if has i xs && is_lower table c i then asked_to_stop (table i) else table i

-- what the loop over the ready reserves `xs` has done
record Blocked (s : Sched) (xs : List ℕ) (s' : Sched) : Type 0 where
  sys_criticality : s'.sys_criticality ≡ s.sys_criticality
  reserves : (i : ℕ) → s'.reserve_table i ≡ stopped s.reserve_table s.sys_criticality xs i

-- one round of the loop
abbrev round : ℕ → Sched × Bool → Sched × Bool
round x (s, c) =
    if is_lower s.reserve_table s.sys_criticality x then (block_reserve x s, true) else (s, c)

round-readyq : (x : ℕ) (s : Sched) (c : Bool) → (round x (s, c)).0.readyq ≡ s.readyq
unfolding block_reserve on
round-readyq x s c = elim (Bool-cases (is_lower s.reserve_table s.sys_criticality x)) [
  | inl b ↦ rw b refl
  | inr b ↦ rw b refl
]

round-sys_criticality :
    (x : ℕ) (s : Sched) (c : Bool) → (round x (s, c)).0.sys_criticality ≡ s.sys_criticality
unfolding block_reserve on
round-sys_criticality x s c = elim (Bool-cases (is_lower s.reserve_table s.sys_criticality x)) [
  | inl b ↦ rw b refl
  | inr b ↦ rw b refl
]

round-other :
    (x i : ℕ) (s : Sched) (c : Bool)
    → (x == i) ≡ false
    → (round x (s, c)).0.reserve_table i ≡ s.reserve_table i
unfolding block_reserve on
round-other x i s c h = elim (Bool-cases (is_lower s.reserve_table s.sys_criticality x)) [
  | inl b ↦ rw b (modify_ne s.reserve_table x i asked_to_stop h)
  | inr b ↦ rw b refl
]

round_self :
    (x : ℕ) (s : Sched) (c : Bool)
    → (round x (s, c)).0.reserve_table x ≡ (
        if is_lower s.reserve_table s.sys_criticality x
        then asked_to_stop (s.reserve_table x)
        else s.reserve_table x)
unfolding block_reserve on
round_self x s c = elim (Bool-cases (is_lower s.reserve_table s.sys_criticality x)) [
  | inl b ↦ rw b (modify_self s.reserve_table x asked_to_stop)
  | inr b ↦ rw b refl
]

block_lower-Blocked :
    (left : ℕ) (p : Ptr) (s : Sched) (c : Bool) (xs : List ℕ)
    → Seg s.readyq.link p xs
    → Distinct xs
    → length xs ≤ left
    → Blocked s xs (block_lower left p (s, c)).0
unfolding block_lower
block_lower-Blocked zero p s c [] g d l = record { sys_criticality = refl; reserves = λ i. refl }
block_lower-Blocked zero p s c (x ∷ xs) g d l = absurd (omega arith)
block_lower-Blocked (suc left) none s c [] g d l = record {
  sys_criticality = refl;
  reserves = λ i. refl;
}
block_lower-Blocked (suc left) none s c (x ∷ xs) g d l = cc
block_lower-Blocked (suc left) (some t) s c [] g d l = cc
block_lower-Blocked (suc left) (some t) s c (x ∷ xs) g d l =
    subst (λ p. Blocked s (x ∷ xs) (block_lower (suc left) p (s, c)).0) (sym g.0)
      (let s1 = (round x (s, c)).0 in
        let same = round-sys_criticality x s c in
        let rest : Seg s1.readyq.link (s.readyq.link x) xs =
          subst (λ q. Seg q.link (s.readyq.link x) xs) (sym (round-readyq x s c)) g.1 in
        let b =
          block_lower-Blocked left (s.readyq.link x) s1 (round x (s, c)).1 xs rest d.1
            (omega arith) in
        record {
          sys_criticality = b.sys_criticality ∙ same;
          reserves = λ i. b.reserves i ∙ elim (Bool-cases (x == i)) [
            | inl e ↦
                subst
                  (λ j.
                    stopped s1.reserve_table s1.sys_criticality xs j
                    ≡ stopped s.reserve_table s.sys_criticality (x ∷ xs) j)
                  (==→eq x i e)
                  (let own : (x == x) ≡ true = ground arith in rw (d.0, own) (round_self x s c))
            | inr e ↦ rw e (rw same (rw (round-other x i s c e) refl))
          ];
        })

-- what zero-slack enforcement of a reserve does to the ready reserves `xs`
pub record Enforced (rid : ℕ) (s : Sched) (xs : List ℕ) (s' : Sched) : Type 0 where
  pub sys_criticality : s'.sys_criticality ≡ (s.reserve_table rid).criticality
  pub reserves :
      (i : ℕ)
      → s'.reserve_table i
        ≡ stopped (modify s.reserve_table rid critical) (s.reserve_table rid).criticality xs i

module _ (k : Kernel) (rid : ℕ) (s0 : Sched) (xs : List ℕ) where
  abbrev measured : Sched
  measured = ask (record s0 { zs_enforcement = start_meter (now k s0) s0.zs_enforcement })

  abbrev entered : Sched
  entered = enter_critical rid measured

  entered-table : entered.reserve_table ≡ modify s0.reserve_table rid critical
  unfolding enter_critical on ask
  entered-table = refl

  entered-readyq : entered.readyq ≡ s0.readyq
  unfolding enter_critical on ask
  entered-readyq = refl

  entered-sys_criticality : entered.sys_criticality ≡ (s0.reserve_table rid).criticality
  unfolding enter_critical on ask critical
  entered-sys_criticality =
      modify_field s0.reserve_table rid rid critical (λ r. r.criticality) (λ r. refl)

  abbrev looped : Sched × Bool
  looped = block_lower visits s0.readyq.head (entered, false)

  called-Enforced :
      (b : Bool) (s : Sched)
      → Enforced rid s0 xs s
      → Enforced rid s0 xs (if b then emit wake_up_sched_task s else s)
  unfolding emit
  called-Enforced true s e = record { sys_criticality = e.sys_criticality; reserves = e.reserves }
  called-Enforced false s e = e

  -- If the ready queue stands for a list of reserves, then zero-slack enforcement of a reserve that
  -- is not enforced and not below the system's criticality raises the system's criticality to that
  -- of the reserve, marks the reserve as critical, and requests the stop of exactly the ready
  -- reserves of a lower criticality; it writes nothing else to the table.
  pub zs_enforcement_of-Enforced :
      IsReady s0.reserve_table s0.readyq xs
      → ((s0.reserve_table rid).enforced
          || ltb_ℤ (s0.reserve_table rid).criticality s0.sys_criticality)
        ≡ false
      → Enforced rid s0 xs (zs_enforcement_of k rid s0)
  unfolding zs_enforcement_of ask
  zs_enforcement_of-Enforced v h =
      let full = length-le_max s0.reserve_table xs v.distinct v.reserves in
      let chain : Seg entered.readyq.link s0.readyq.head xs =
        subst (λ q. Seg q.link s0.readyq.head xs) (sym entered-readyq) v.chain in
      let b =
        block_lower-Blocked visits s0.readyq.head entered false xs chain v.distinct (omega arith) in
      rw h (
        called-Enforced looped.1 looped.0 (record {
          sys_criticality = b.sys_criticality ∙ entered-sys_criticality;
          reserves = λ i.
              b.reserves i
              ∙ ap (λ c. stopped entered.reserve_table c xs i) entered-sys_criticality
              ∙ ap (λ t. stopped t (s0.reserve_table rid).criticality xs i) entered-table;
        }))
