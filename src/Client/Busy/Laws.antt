-- ===== src/Client/Busy/Laws.antt =====
-- How many samples busy_timestamped takes, and which slots of the buffer it writes.
use mixed_trust_zsrmv_public.Base.{ℕ, ◌+◌, ◌-◌, ◌/◌, ◌%◌, ◌≤◌, ◌<◌, ◌≡◌, ltb, if◌then◌else◌}
use mixed_trust_zsrmv_public.Reserve.{Timespec}
use mixed_trust_zsrmv_public.Client.Busy.{get_now_ns, Busy}

abbrev pub at_most : ℕ → ℕ → ℕ
at_most m n = if ltb m n then m else n

module _ (clock : ℕ → Timespec) (bufsize start : ℕ) (before : ℕ → ℕ) where
  -- after `n` rounds from slot `start` on
  pub record After (n : ℕ) (b : Busy) : Type 0 where
    pub silent : b.s ≡ n % 10000
    pub filled : b.bufidx ≡ at_most (start + n / 10000) bufsize
    pub counted : b.reads + start ≡ b.bufidx
    pub sampled : (i : ℕ) → start ≤ i → i < b.bufidx → b.tsbuffer i ≡ get_now_ns (clock (i - start))
    pub earlier : (i : ℕ) → i < start → b.tsbuffer i ≡ before i
    pub beyond : (i : ℕ) → bufsize ≤ i → b.tsbuffer i ≡ before i
