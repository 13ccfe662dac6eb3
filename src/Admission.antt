-- ===== src/Admission.antt =====
-- The admission test of src/admission.c. `new` is the index of the reserve under test: it points
-- into the table if it is below tablesize, as in the driver, and behind it otherwise, as for a
-- separate variable. Arithmetic is that of the ARM target: 64 bits, and 32 bits for numArrivals.
pub mod Sets
pub mod Demand
pub mod Response
pub mod Attempts
pub mod Slack
pub mod Rounds
pub mod Verdict
use mixed_trust_zsrmv_public.Base.{
  ℕ, zero, suc, ◌+◌, ◌-◌, ◌*◌, ◌/◌, ◌%◌, ◌^◌, ◌≡◌, Bool, true, false, ◌&&◌, ◌||◌, not, ltb, leb,
  ◌==◌, if◌then◌else◌, u32, u64, sub_u64, update,
}
use mixed_trust_zsrmv_public.Base.Int.{ℤ, pos, negsuc, ltb_ℤ, eqb_ℤ}
use mixed_trust_zsrmv_public.Reserve.{Reserve, Table, modify}

-- A result, a division by zero, or too few rounds of a loop.
pub data Outcome (A : Type 0) : Type 0 where
  value : A → Outcome A
  divided_by_zero : Outcome A
  out_of_fuel : Outcome A

infixl 5 ◌>>=◌
abbrev pub ◌>>=◌ : {A B : Type 0} → Outcome A → (A → Outcome B) → Outcome B
value a >>= f = f a
divided_by_zero >>= f = divided_by_zero
out_of_fuel >>= f = out_of_fuel

abbrev pub Test : Type 0
Test = Reserve → Reserve → Bool

unfoldable pub is_higher_prio_higher_crit : Test
is_higher_prio_higher_crit thisone other =
    leb other.period_ns thisone.period_ns && ltb_ℤ thisone.criticality other.criticality

unfoldable pub is_lower_prio_higher_crit : Test
is_lower_prio_higher_crit thisone other =
    ltb thisone.period_ns other.period_ns && ltb_ℤ thisone.criticality other.criticality

unfoldable pub is_higher_prio_same_crit : Test
is_higher_prio_same_crit thisone other =
    leb other.period_ns thisone.period_ns && eqb_ℤ thisone.criticality other.criticality

unfoldable pub is_higher_prio_lower_crit : Test
is_higher_prio_lower_crit thisone other =
    leb other.period_ns thisone.period_ns && ltb_ℤ other.criticality thisone.criticality

-- the part of the loop's condition by which an entry is passed over
abbrev pub passed_over : Table → ℕ → Test → ℕ → Bool
passed_over rsvtable new in_set i =
    not (in_set (rsvtable new) (rsvtable i)) || (eqb_ℤ (rsvtable i).pid (negsuc 0) || (new == i))

-- while (cidx < tablesize && passed over) cidx++, where `left` is tablesize - cidx
unfoldable pub skip : Table → ℕ → Test → ℕ → ℕ → ℕ
skip rsvtable new in_set zero i = i
skip rsvtable new in_set (suc left) i = elim (passed_over rsvtable new in_set i) [
  | true ↦ skip rsvtable new in_set left (suc i)
  | false ↦ i
]

-- The selected index, or -1, and the index at which the next search starts.
unfoldable pub get_next_in_set : Table → ℤ → ℕ → ℕ → Test → ℤ × ℤ
unfolding skip
get_next_in_set rsvtable (negsuc n) tablesize new in_set = (negsuc 0, negsuc n)
get_next_in_set rsvtable (pos i) tablesize new in_set =
    let j = skip rsvtable new in_set (tablesize - i) i in
    if ltb j tablesize then (pos j, pos (suc j)) else (negsuc 0, pos j)

unfoldable pub get_exec_time_higher_prio_higher_crit : Reserve → ℕ
get_exec_time_higher_prio_higher_crit r = r.nominal_exectime_ns

unfoldable pub get_exec_time_higher_prio_same_crit : Reserve → ℕ
get_exec_time_higher_prio_same_crit r = r.exectime_ns

unfoldable pub get_exec_time_lower_prio_higher_crit : Reserve → ℕ
get_exec_time_lower_prio_higher_crit r = sub_u64 r.nominal_exectime_ns r.exectime_in_rm_ns

-- t / period_ns + (t % period_ns > 0 ? 1 : 0), as an unsigned long
unfoldable pub num_arrivals : ℕ → ℕ → Outcome ℕ
num_arrivals t zero = divided_by_zero
num_arrivals t (suc p) = value (u32 (t / suc p + (if ltb 0 (t % suc p) then 1 else 0)))

-- the body of the loop, on what the search returned: `loop` goes on, or the loop has ended
unfoldable pub add_selected :
    Table → (Reserve → ℕ) → ℕ → ℕ → (ℤ → ℕ → Outcome ℕ) → ℤ × ℤ → Outcome ℕ
add_selected rsvtable exec t acc loop (pos j, next) =
    num_arrivals t (rsvtable j).period_ns >>= λ n. loop next (u64 (acc + n * exec (rsvtable j)))
add_selected rsvtable exec t acc loop (negsuc m, next) = value acc

-- while ((selectedIdx = getNextInSet(...)) >= 0) acc += numArrivals * exec
pub interference_loop : Table → ℕ → ℕ → Test → (Reserve → ℕ) → ℕ → ℕ → ℤ → ℕ → Outcome ℕ
interference_loop rsvtable tablesize new in_set exec t zero idx acc = out_of_fuel
interference_loop rsvtable tablesize new in_set exec t (suc fuel) idx acc =
    add_selected rsvtable exec t acc (interference_loop rsvtable tablesize new in_set exec t fuel)
      (get_next_in_set rsvtable idx tablesize new in_set)

-- idx = 0 and the loop; each round moves the index on, so tablesize + 1 rounds are enough
unfoldable pub add_interference : Table → ℕ → ℕ → Test → (Reserve → ℕ) → ℕ → ℕ → Outcome ℕ
unfolding interference_loop
add_interference rsvtable tablesize new in_set exec t acc =
    interference_loop rsvtable tablesize new in_set exec t (suc tablesize) (pos 0) acc

-- one round of the loop of getResponseTimeCritNs, from prevResp
unfoldable pub response_round : Table → ℕ → ℕ → ℕ → Outcome ℕ
unfolding add_interference
response_round rsvtable tablesize new prev_resp = do
  a ←
      add_interference rsvtable tablesize new is_higher_prio_higher_crit
        get_exec_time_higher_prio_higher_crit prev_resp
        (sub_u64 (rsvtable new).exectime_ns (rsvtable new).exectime_in_rm_ns)
  b ←
      add_interference rsvtable tablesize new is_lower_prio_higher_crit
        get_exec_time_lower_prio_higher_crit prev_resp a
  add_interference rsvtable tablesize new is_higher_prio_same_crit
      get_exec_time_higher_prio_same_crit prev_resp b

-- the loop's condition after a round: resp > prevResp && resp <= newrsv->period_ns
unfoldable pub next_response : ℕ → (ℕ → Outcome ℕ) → ℕ → ℕ → Outcome ℕ
next_response period_ns loop prev_resp resp = elim (ltb prev_resp resp && leb resp period_ns) [
  | true ↦ loop resp
  | false ↦ value resp
]

response_loop : Table → ℕ → ℕ → ℕ → ℕ → Outcome ℕ
response_loop rsvtable tablesize new zero resp = out_of_fuel
response_loop rsvtable tablesize new (suc fuel) prev_resp =
    response_round rsvtable tablesize new prev_resp
    >>= next_response (rsvtable new).period_ns (response_loop rsvtable tablesize new fuel) prev_resp

-- The response grows by at least one in each round but the last and stays within the period.
unfoldable pub get_response_time_crit_ns : Table → ℕ → ℕ → Outcome ℕ
unfolding response_loop
get_response_time_crit_ns rsvtable tablesize new =
    response_loop rsvtable tablesize new ((rsvtable new).period_ns + 2)
      (sub_u64 (rsvtable new).exectime_ns (rsvtable new).exectime_in_rm_ns)

abbrev nominal : Reserve → ℕ
nominal r = r.nominal_exectime_ns

abbrev worst : Reserve → ℕ
worst r = r.exectime_ns

unfoldable pub get_rm_interference : Table → ℕ → ℕ → ℕ → Outcome ℕ
unfolding add_interference
get_rm_interference rsvtable tablesize new z = do
  a ← add_interference rsvtable tablesize new is_higher_prio_higher_crit nominal z 0
  b ← add_interference rsvtable tablesize new is_higher_prio_lower_crit worst z a
  add_interference rsvtable tablesize new is_higher_prio_same_crit worst z b

-- the variables of `admit`; exectime_in_rm_ns is a field of the reserve under test
pub record Admit : Type 0 where
  pub rsvtable : Table
  pub resp : ℕ
  pub z : ℕ
  pub slack : ℕ

unfoldable pub with_in_rm : ℕ → Reserve → Reserve
with_in_rm n r = record r { exectime_in_rm_ns = n }

-- newrsv->exectime_in_rm_ns = n
abbrev pub set_in_rm : Table → ℕ → ℕ → Table
set_in_rm rsvtable new n = modify rsvtable new (with_in_rm n)

-- resp - exectime_ns + exectime_in_rm_ns
abbrev pub window : Reserve → ℕ → ℕ
window r resp = u64 (sub_u64 resp r.exectime_ns + r.exectime_in_rm_ns)

-- the part of the loop's body that computes Z, interf and slack
unfoldable pub find_slack : ℕ → ℕ → Admit → Outcome Admit
find_slack tablesize new s =
    let r = s.rsvtable new in
    let z = r.period_ns - s.resp in
    get_rm_interference s.rsvtable tablesize new z >>= λ interf.
    let used = u64 (interf + r.exectime_in_rm_ns) in
    if ltb used z
    then value (record s { z = z; slack = sub_u64 (sub_u64 z interf) r.exectime_in_rm_ns })
    else if z == used
    then (let z' = u64 (z + window r s.resp) in
        if leb z' r.period_ns
        then (get_rm_interference s.rsvtable tablesize new z' >>= λ interf1.
            if leb interf1 (sub_u64 s.resp (sub_u64 r.exectime_ns r.exectime_in_rm_ns))
            then value
                (record s { z = z'; slack = sub_u64 (sub_u64 z' interf1) r.exectime_in_rm_ns })
            else value (record s { z = z }))
        else value (record s { z = z }))
    else value (record s { z = z; slack = 0 })

-- the part of the loop's body that moves execution time into rate-monotonic mode
unfoldable pub use_slack : ℕ → Admit → Admit
use_slack new s =
    let r = s.rsvtable new in
    if ltb (u64 (s.slack + r.exectime_in_rm_ns)) r.exectime_ns
    then record s { rsvtable = set_in_rm s.rsvtable new (u64 (r.exectime_in_rm_ns + s.slack)) }
    else record s { rsvtable = set_in_rm s.rsvtable new r.exectime_ns; z = r.period_ns }

-- the body of the loop; prevZ is the Z that it starts from
unfoldable pub admit_round : ℕ → ℕ → Admit → Outcome Admit
admit_round tablesize new s = get_response_time_crit_ns s.rsvtable tablesize new >>= λ resp.
    let t = record s { resp = resp } in
    if leb resp (s.rsvtable new).period_ns
    then (find_slack tablesize new t >>= λ u. value (use_slack new u))
    else value t

-- the loop's condition: newrsv->period_ns >= resp && Z > prevZ
unfoldable pub next_admit : ℕ → ℕ → ℕ → (ℕ → Admit → Outcome Admit) → Admit → Outcome Admit
next_admit tablesize new prev_z loop s =
    elim (leb s.resp (s.rsvtable new).period_ns && ltb prev_z s.z) [
      | true ↦ admit_round tablesize new s >>= loop s.z
      | false ↦ value s
    ]

unfoldable pub admit_loop : ℕ → ℕ → ℕ → ℕ → Admit → Outcome Admit
admit_loop tablesize new zero prev_z s = out_of_fuel
admit_loop tablesize new (suc fuel) prev_z s =
    next_admit tablesize new prev_z (admit_loop tablesize new fuel) s

-- The final table, whether the reserve is admitted, and *calcZ. Z grows in each round but the
-- last and stays within the period.
unfoldable pub admit : Table → ℕ → ℕ → Outcome (Table × Bool × ℕ)
unfolding admit_loop
admit rsvtable tablesize new =
    let start : Admit = record {
      rsvtable = set_in_rm rsvtable new 0;
      resp = 0;
      z = 1;
      slack = 0;
    } in
    admit_loop tablesize new ((rsvtable new).period_ns + 3) 0 start >>= λ s.
    value (s.rsvtable, leb s.resp (s.rsvtable new).period_ns, s.z)
