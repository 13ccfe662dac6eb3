-- ===== src/Admission/Attempts.antt =====
-- What the loop of `admit` in src/admission.c is meant to do: attempts to move execution time of the
-- reserve under test into rate-monotonic mode, in terms of the demand of the other reserves.
use mixed_trust_zsrmv_public.Base.{ℕ, ◌+◌, ◌-◌, ◌<◌, ◌≤◌, ◌≡◌, ◌⊎◌, u64, sub_u64}
use mixed_trust_zsrmv_public.Reserve.{Reserve}
use mixed_trust_zsrmv_public.Admission.{Admit, set_in_rm, window}
use mixed_trust_zsrmv_public.Admission.Response.{IsResponse, rm_demand}

module _ (tablesize new : ℕ) where
  module _ (s : Admit) where
    abbrev pub under_test : Reserve
    under_test = s.rsvtable new

    -- the part of the period before a response in critical mode
    abbrev pub room : ℕ
    room = under_test.period_ns - s.resp

    abbrev pub interference : ℕ → ℕ
    interference z = u64 (rm_demand s.rsvtable tablesize new z)

    -- what is used of that part by other reserves and by this one
    abbrev pub used : ℕ
    used = u64 (interference room + under_test.exectime_in_rm_ns)

    -- the instant beyond the interference in critical mode
    abbrev pub pushed : ℕ
    pushed = u64 (room + window under_test s.resp)

    abbrev pub left_of : ℕ → ℕ
    left_of z = sub_u64 (sub_u64 z (interference z)) under_test.exectime_in_rm_ns

    abbrev pub crit_interference : ℕ
    crit_interference = sub_u64 s.resp (sub_u64 under_test.exectime_ns under_test.exectime_in_rm_ns)

    -- The zero-slack instant and the slack: what is left of the room; if all of it is used, what is
    -- left beyond the interference, where that is within the period and little enough, and otherwise
    -- the slack of before; none if more is used than there is.
    pub data Slack (t : Admit) : Type 0 where
      left : used < room → t ≡ record s { z = room; slack = left_of room } → Slack t
      beyond :
          room ≡ used
          → pushed ≤ under_test.period_ns
          → interference pushed ≤ crit_interference
          → t ≡ record s { z = pushed; slack = left_of pushed }
          → Slack t
      stuck :
          room ≡ used
          → (under_test.period_ns < pushed) ⊎ (crit_interference < interference pushed)
          → t ≡ record s { z = room }
          → Slack t
      short : room < used → t ≡ record s { z = room; slack = 0 } → Slack t

    -- The slack is moved into rate-monotonic mode, as far as the execution time goes; with all of it
    -- there, the zero-slack instant is the end of the period.
    pub data Moved (t : Admit) : Type 0 where
      some_of_it :
          u64 (s.slack + under_test.exectime_in_rm_ns) < under_test.exectime_ns
          → t ≡ record s {
            rsvtable = set_in_rm s.rsvtable new (u64 (under_test.exectime_in_rm_ns + s.slack));
          }
          → Moved t
      all_of_it :
          under_test.exectime_ns ≤ u64 (s.slack + under_test.exectime_in_rm_ns)
          → t ≡ record s {
            rsvtable = set_in_rm s.rsvtable new under_test.exectime_ns;
            z = under_test.period_ns;
          }
          → Moved t

  -- one attempt: the response time and, if it is within the period, the slack that is moved
  pub data Attempt (s u : Admit) : Type 0 where
    fails :
        (r : ℕ)
        → IsResponse s.rsvtable tablesize new r
        → (s.rsvtable new).period_ns < r
        → u ≡ record s { resp = r }
        → Attempt s u
    fits :
        (r : ℕ) (t : Admit)
        → IsResponse s.rsvtable tablesize new r
        → r ≤ (s.rsvtable new).period_ns
        → Slack (record s { resp = r }) t
        → Moved t u
        → Attempt s u

  -- Attempts up to `u`, from a zero-slack instant and a state: further ones as long as the response
  -- time is within the period and the zero-slack instant has grown.
  pub data Attempts (u : Admit) : ℕ → Admit → Type 0 where
    done :
        {prev_z : ℕ} {s : Admit}
        → ((s.rsvtable new).period_ns < s.resp) ⊎ (s.z ≤ prev_z)
        → u ≡ s
        → Attempts u prev_z s
    again :
        {prev_z : ℕ} {s t : Admit}
        → s.resp ≤ (s.rsvtable new).period_ns
        → prev_z < s.z
        → Attempt s t
        → Attempts u s.z t
        → Attempts u prev_z s
