-- ===== src/Litelog/Port.antt =====
-- The loop of `Litelog_Socket_Bind_Target` finds a free port.
use pre.Litelog.{BindReply, bound, in_use, refused, next_port, bind_target}
use pre.Prelude.{ℕ, zero, suc, ◌+◌, ◌-◌, ◌%◌, ◌<◌, ◌≡◌, refl, sym, subst, ◌≢◌, Option, some, arith}
use pre.Prelude.Int.{ℤ, pos}
use pre.Prelude.Bytes.{u16}

-- How many ports the loop tries from `port` before it comes to `free`, going round at 65536.
abbrev pub ports_before : ℕ → ℕ → ℕ
ports_before port free = (free + 65536 - port) % 65536

-- The test after the increment is never met: a `uint16_t` is at most 65535, and the port goes on
-- to 0 after it.
pub next_port_wraps : (port : ℕ) → next_port port ≡ u16 (port + 1)
unfolding next_port
next_port_wraps port = ground arith

-- The port that the loop ends with answers `bound`.
pub data IsBound (bind : ℕ → BindReply) (r : Option (ℤ × ℕ)) : Type 0 where
  at : (p : ℕ) → p < 65536 → bind p ≡ bound → r ≡ some (pos 0, p) → IsBound bind r

-- A busy port that is not the free one is left for one nearer to it.
nearer :
    (port free fuel : ℕ)
    → port < 65536
    → free < 65536
    → port ≢ free
    → ports_before port free < suc fuel
    → ports_before (u16 (port + 1)) free < fuel
nearer port free fuel hp hf ne lt = omega arith

apart : {free : ℕ} (bind : ℕ → BindReply) → bind free ≡ bound → bind free ≢ in_use
apart bind b busy = cc

bind_target_within :
    (bind : ℕ → BindReply) (fuel port free : ℕ)
    → port < 65536
    → free < 65536
    → bind free ≡ bound
    → ((p : ℕ) → bind p ≢ refused)
    → ports_before port free < fuel
    → IsBound bind (bind_target bind fuel port)
unfolding bind_target
bind_target_within bind zero port free hp hf b r lt = absurd (omega arith)
bind_target_within bind (suc fuel) port free hp hf b r lt = go (bind port) refl (λ busy.
    bind_target_within bind fuel (u16 (port + 1)) free (omega arith) hf b r
      (nearer port free fuel hp hf (λ e. apart bind b (subst (λ p. bind p ≡ in_use) e busy)) lt))
  where
    stepped :
        bind port ≡ in_use
        → bind_target bind (suc fuel) port ≡ bind_target bind fuel (u16 (port + 1))
    stepped e = ground (arith, next_port_wraps port)

    go :
        (reply : BindReply)
        → bind port ≡ reply
        → (bind port ≡ in_use → IsBound bind (bind_target bind fuel (u16 (port + 1))))
        → IsBound bind (bind_target bind (suc fuel) port)
    go bound e rest = at port hp e (cc)
    go refused e rest = absurd (r port e)
    go in_use e rest = subst (λ p. IsBound bind p) (sym (stepped e)) (rest e)

-- Where some port is free and `bind` fails only for ports in use, the loop ends after at most 65536
-- tries, with status 0 and a port that it has bound.
pub bind_target_lem :
    (bind : ℕ → BindReply) (port free : ℕ)
    → port < 65536
    → free < 65536
    → bind free ≡ bound
    → ((p : ℕ) → bind p ≢ refused)
    → IsBound bind (bind_target bind 65536 port)
bind_target_lem bind port free hp hf b r =
    bind_target_within bind 65536 port free hp hf b r (omega arith)
