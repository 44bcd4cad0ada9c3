-- ===== src/Circle/Optim.antt =====
-- The optimum length of the play queue: how force_optim and the wait for it act on the entries.
use the_multi_room_speaker.Base.{
  ℕ, zero, suc, ◌+◌, ◌-◌, ◌/◌, ◌%◌, ◌≤◌, ◌<◌, ◌≡◌, ◌≢◌, true, ltb, if◌then◌else◌, int_mod, arith,
  min, ◌⊎◌,
}
use the_multi_room_speaker.Base.Int.{ℤ, pos}
use the_multi_room_speaker.Wire.{cli_sync_percent}
use the_multi_room_speaker.Circle.{
  Circle, inc, shrink_loop, forced_optim, force_optim, set_optim_perc,
}
use the_multi_room_speaker.Circle.Invariant.{IsValid, inc_lem}
use the_multi_room_speaker.Circle.Window.{mod_step}
use native.Mathlib.Nat.{mod-eq_of_lt, add-zero}

-- The loop stops at the optimum, and has moved `_geti` by as many steps as it dropped entries.
shrink_loop_lem :
    (m optim e g : ℕ)
    → g < m
    → m < int_mod
    → ((shrink_loop m optim e g).0 ≡ min optim e)
      × ((shrink_loop m optim e g).1 ≡ (g + (e - min optim e)) % m)
unfolding shrink_loop
shrink_loop_lem m optim zero g h s = ground (arith, add-zero g, mod-eq_of_lt h)
shrink_loop_lem m optim (suc e) g h s = ground (
  arith,
  inc_lem m g h s,
  shrink_loop_lem m optim e (inc m g) (inc_lem m g h s).1 s,
  mod_step m g (e - min optim e),
  mod-eq_of_lt h,
  add-zero g,
)

-- force_optim(n) with a new value: the optimum is the value, or 5 percent below the capacity where the
-- value reaches it (a negative one does), so below the capacity unless that is under 20; a longer queue
-- loses its oldest entries, exactly down to the optimum, and is waited for as before; one no longer than
-- that keeps its entries and waits.
pub force_optim_lem :
    (n : ℤ) (q : Circle)
    → IsValid q
    → forced_optim n q.maxqsz ≢ q.optim
    → let w = forced_optim n q.maxqsz in
      let q' = force_optim n q in
      (q'.optim ≡ w)
      × ((w < q.maxqsz) ⊎ (q.maxqsz < 20))
      × (q'.elems ≡ min w q.elems)
      × (q'.geti ≡ (q.geti + (q.elems - min w q.elems)) % q.maxqsz)
      × (q'.puti ≡ q.puti)
      × (q'.block_get ≡ (if ltb w q.elems then q.block_get else true))
unfolding force_optim
force_optim_lem n q v ne = ground (
  arith,
  shrink_loop_lem q.maxqsz (forced_optim n q.maxqsz) q.elems q.geti v.geti_in v.small,
  mod-eq_of_lt v.geti_in,
  add-zero q.geti,
)

-- The client asks for 50 percent by set_optim_perc(50) at the start (cli/main.cpp), and in the pilot role
-- by force_optim(50) (cli/sclient.cpp). On a queue of at least 102 chunks the two differ: the first is
-- half the capacity, the second 50 chunks, which is less.
pilot_optim :
    (q : Circle)
    → IsValid q
    → 102 ≤ q.maxqsz
    → ((set_optim_perc (pos cli_sync_percent) q).1.optim ≡ q.maxqsz / 2)
      × ((force_optim (pos cli_sync_percent) q).optim ≡ 50)
      × (50 < q.maxqsz / 2)
unfolding set_optim_perc force_optim
pilot_optim q v h = ground arith
