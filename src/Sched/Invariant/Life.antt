-- ===== src/Sched/Invariant/Life.antt =====
-- The deletion of a reserve keeps the invariant of the scheduler.
use mathlib.Core.Path.{subst}
use mixed_trust_zsrmv_public.Base.{
  ℕ, ◌<◌, ◌≡◌, refl, inl, inr, true, false, Option, none, some, List, arith, leb, Bool-cases,
  Option-cases, ap, sym, has, update,
}
use mixed_trust_zsrmv_public.Base.Int.{negsuc}
use mixed_trust_zsrmv_public.Links.{Queue, max_reserves}
use mixed_trust_zsrmv_public.Links.Remove.{erase, has-erase_self}
use mixed_trust_zsrmv_public.Sched.{Kernel, Sched, ask, emit, on, now, gettask}
use mixed_trust_zsrmv_public.Sched.Budget.{stop}
use mixed_trust_zsrmv_public.Sched.Budget.Keeps.{Keeps, Keeps-trans, on-Keeps, ask-Keeps}
use mixed_trust_zsrmv_public.Sched.Budget.Heads.{Readies, Keeps-Readies}
use mixed_trust_zsrmv_public.Sched.Budget.Laws.{stop-Readies, stop-Except}
use mixed_trust_zsrmv_public.Sched.Life.{drop_dead, cancel_all, set_normal, delete_reserve}
use mixed_trust_zsrmv_public.Reserve.{Reserve, modify_self}
use mixed_trust_zsrmv_public.RmQueue.{del_rm_queue}
use mixed_trust_zsrmv_public.Sched.Invariant.{Sound, Except-Sound, Keeps-Sound}
use mixed_trust_zsrmv_public.Sched.Invariant.Drop.{
  Keeps-Without, Without, Without-Keeps, cancel_all-Keeps, cut_link, drop_dead-Without,
  set_normal-Keeps,
}

module _ (k : Kernel) (rid : ℕ) where
  -- the end of delete_reserve, with the reserve out of the queue
  abbrev freed : Sched → Sched
  freed s = on rid (λ r. record r { pid = negsuc 0 }) (cancel_all k rid s)

  abbrev unlinked : Sched → Sched
  unlinked s = record (freed s) {
    readyq = record (freed s).readyq { link = update (freed s).readyq.link rid none };
  }

  abbrev deleted : Sched → Option ℕ → Sched
  deleted s last =
      let s4 = set_normal last (unlinked s) in record s4 { rm = del_rm_queue s4.rm rid }

  deleted-Without :
      (xs : List ℕ) (a s : Sched) (last : Option ℕ)
      → has rid (erase rid xs) ≡ false
      → Without rid xs a s
      → Without rid xs a (deleted s last)
  deleted-Without xs a s last out w =
      let keeps : Keeps s (freed s) =
        Keeps-trans s (cancel_all k rid s) (freed s) (cancel_all-Keeps k rid s)
          (on-Keeps rid _ (cancel_all k rid s) (λ r. refl) (λ r. refl)) in
      let w1 = Without-Keeps rid xs a s (freed s) w keeps in
      let w2 = cut_link rid xs a (freed s) w1 out in
      let s4 = set_normal last (unlinked s) in
      let w3 = Without-Keeps rid xs a (unlinked s) s4 w2 (set_normal-Keeps last (unlinked s)) in
      Without-Keeps rid xs a s4 (deleted s last) w3 (record {
        readyq = refl;
        crit_blockq = refl;
        pending = λ h. h;
        priority = λ i. refl;
        rid = λ i. refl;
      })

  freed_pid : (s : Sched) (last : Option ℕ) → ((deleted s last).reserve_table rid).pid ≡ negsuc 0
  unfolding set_normal on emit
  freed_pid s none =
      ap (λ (r : Reserve). r.pid) (modify_self (cancel_all k rid s).reserve_table rid _)
  freed_pid s (some task) =
      ap (λ (r : Reserve). r.pid) (modify_self (cancel_all k rid s).reserve_table rid _)

  -- the reserve is out of the ready queue and its entry is free
  abbrev Freed : List ℕ → Sched → Sched → Type 0
  Freed xs s s' = Without rid xs s s' × ((s'.reserve_table rid).pid ≡ negsuc 0)

  deleted-Freed :
      (s0 : Sched) (xs : List ℕ)
      → rid < max_reserves
      → Readies s0 xs
      → Freed xs s0 (delete_reserve k rid s0).0
  unfolding delete_reserve
  deleted-Freed s0 xs l v0 =
      let b : leb max_reserves rid ≡ false = ground arith in
      let out = has-erase_self rid xs v0.distinct in
      let s1 = ask s0 in
      let s2 = ask s1 in
      let k1 : Keeps s0 s2 = Keeps-trans s0 s1 s2 (ask-Keeps s0) (ask-Keeps s1) in
      let v : Readies s2 xs = Keeps-Readies s0 s2 xs k1 v0 in
      elim (Option-cases (gettask k s1 rid)) [
        | inl e ↦
            let dropped = drop_dead k (now k s0) rid s1.readyq.head s2 in
            let same : s2.readyq.head ≡ s1.readyq.head =
              ap (λ (q : Queue). q.head) (ask-Keeps s1).readyq in
            let w0 : Without rid xs s2 dropped.0 =
              subst (λ p. Without rid xs s2 (drop_dead k (now k s0) rid p s2).0) same
                (drop_dead-Without k (now k s0) rid s2 xs v) in
            let w = Keeps-Without rid xs s0 s2 dropped.0 k1 w0 in
            let d = deleted-Without xs s0 dropped.0 dropped.1 out w in
            rw b (rw (e, delete_reserve) (d, freed_pid dropped.0 dropped.1))
        | inr (task, e) ↦
            let w0 : Without rid xs s2 (stop k rid s2) = record {
              except = stop-Except k rid s2 xs v l;
              ready = stop-Readies k rid s2 xs v l;
            } in
            let w = Keeps-Without rid xs s0 s2 (stop k rid s2) k1 w0 in
            let d = deleted-Without xs s0 (stop k rid s2) (some task) out w in
            rw b (rw (e, delete_reserve) (d, freed_pid (stop k rid s2) (some task)))
      ]

  -- If the ready queue is sorted by priority and stands for a list of reserves, then deleting a
  -- reserve in range, whether its task is alive or dead and whether the reserve is ready or not,
  -- leaves it so: it stands for the list without the reserve. The entry is free afterwards.
  pub delete_reserve-Readies :
      (s0 : Sched) (xs : List ℕ)
      → rid < max_reserves
      → Readies s0 xs
      → Readies (delete_reserve k rid s0).0 (erase rid xs)
        × (((delete_reserve k rid s0).0.reserve_table rid).pid ≡ negsuc 0)
  delete_reserve-Readies s0 xs l v = let d = deleted-Freed s0 xs l v in (d.0.ready, d.1)

  refused : (s0 : Sched) → leb max_reserves rid ≡ true → (delete_reserve k rid s0).0 ≡ ask s0
  unfolding delete_reserve
  refused s0 b = rw b refl

  pub delete_reserve-Sound : (s0 : Sched) → Sound s0 → Sound (delete_reserve k rid s0).0
  delete_reserve-Sound s0 h = elim (Bool-cases (leb max_reserves rid)) [
    | inl b ↦ subst Sound (sym (refused s0 b)) (Keeps-Sound s0 (ask s0) (ask-Keeps s0) h)
    | inr b ↦
        let d = deleted-Freed s0 h.waiting (ground arith) h.ready in
        Except-Sound s0 _ (erase rid h.waiting) d.0.except d.0.ready h
  ]
