-- ===== src/Sockets/Flags.antt =====
-- `set_non_blocking` changes one bit of the flags.
use latency_lab.Base.{ℕ, ◌*◌, ◌/◌, ◌%◌, ◌≡◌, refl, Bool, true, false, arith}
use latency_lab.Base.Int.{ℤ, pos, negsuc}
use latency_lab.Sockets.System.{
  System, o_nonblock, is_non_blocking, with_non_blocking, update_flags, set_non_blocking,
}

with_non_blocking_bits :
    (enabled : Bool) (flags : ℕ)
    → (is_non_blocking (with_non_blocking enabled flags) ≡ enabled)
      × (with_non_blocking enabled flags % o_nonblock ≡ flags % o_nonblock)
      × (with_non_blocking enabled flags / (2 * o_nonblock) ≡ flags / (2 * o_nonblock))
with_non_blocking_bits true flags = ground arith
with_non_blocking_bits false flags = ground arith

module _ {S : Type 0} (sys : System S) where
  update_flags_lem :
      (z : ℤ) (s : S) (fd : ℤ) (enabled : Bool)
      → (update_flags sys z s fd enabled).0 ≡ true
      → (flags flags' : ℕ) × (z ≡ pos flags)
        × (sys.get_flags (update_flags sys z s fd enabled).1 fd ≡ pos flags')
        × (is_non_blocking flags' ≡ enabled)
        × (flags' % o_nonblock ≡ flags % o_nonblock)
        × (flags' / (2 * o_nonblock) ≡ flags / (2 * o_nonblock))
  update_flags_lem (pos flags) s fd enabled h =
      let (bit, below, above) = with_non_blocking_bits enabled flags in
      (
        flags,
        with_non_blocking enabled flags,
        refl,
        sys.set_flags_kept s fd (with_non_blocking enabled flags) h,
        bit,
        below,
        above,
      )
  update_flags_lem (negsuc n) s fd enabled h = cc

  -- By the laws of Sockets.System: where set_non_blocking returns true, the descriptor had flags, and
  -- it now has the same in all bits but O_NONBLOCK, which is set if and only if it was asked for.
  pub set_non_blocking_lem :
      (s : S) (fd : ℤ) (enabled : Bool)
      → (set_non_blocking sys s fd enabled).0 ≡ true
      → (flags flags' : ℕ) × (sys.get_flags s fd ≡ pos flags)
        × (sys.get_flags (set_non_blocking sys s fd enabled).1 fd ≡ pos flags')
        × (is_non_blocking flags' ≡ enabled)
        × (flags' % o_nonblock ≡ flags % o_nonblock)
        × (flags' / (2 * o_nonblock) ≡ flags / (2 * o_nonblock))
  unfolding set_non_blocking
  set_non_blocking_lem s fd enabled h = update_flags_lem (sys.get_flags s fd) s fd enabled h
