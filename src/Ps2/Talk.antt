-- ===== src/Ps2/Talk.antt =====
-- What the routines of src/kernel/Drivers/PS2/PS2_Controller.c say to the controller and hear
-- from it.
use icarus.Prelude.{
  ℕ, zero, suc, ◌+◌, ◌/◌, ◌%◌, ◌^◌, ◌≤◌, ◌≡◌, refl, ◌∙◌, ap, arith, Bool, false, ◌&&◌, ◌==◌,
  if◌then◌else◌, Option, none, some, List, [], ◌∷◌, ◌++◌, length, Bool-cases, inl, inr,
}
use mathlib.Core.List.{append-nil, append_assoc}
use icarus.Prelude.Bits.{testbit}
use icarus.Ps2.{
  Access, got, put, Bus, data_port, command_port, timeout, inportb, outportb, poll_output,
  send_when_empty, write_ps2_bcommand, write_ps2_bcommand_ret, write_ps2_2bcommand, flush_out_buff,
}

-- the commands, the last one first, each with the bytes read from the data port
-- after it, in their order
abbrev pub Talk : Type 0
Talk = List (ℕ × List ℕ)

abbrev pub hear : List ℕ → Talk → Talk
hear vs [] = []
hear vs ((c, ws) ∷ talk) = (c, ws ++ vs) ∷ talk

abbrev pub talk : List Access → Talk
talk [] = []
talk (got port v ∷ log) = if port == data_port then hear (v ∷ []) (talk log) else talk log
talk (put port v ∷ log) = if port == command_port then (v, []) ∷ talk log else talk log

-- a status that shows room for a byte
abbrev room : List Access → Bool
room [] = false
room (got port v ∷ log) = port == command_port && testbit v 1 == 0
room (put port v ∷ log) = false

-- the bytes written to the data port that do not come right behind such a status
abbrev pub rude : List Access → ℕ
rude [] = 0
rude (got port v ∷ log) = rude log
rude (put port v ∷ log) =
    if port == data_port then (if room log then rude log else rude log + 1) else rude log

-- from one state of the ports to another: `F` happens to the talk, in at most `n` accesses
pub record Does (F : Talk → Talk) (n : ℕ) (b b' : Bus) : Type 0 where
  pub talked : talk b'.log ≡ F (talk b.log)
  pub no_ruder : rude b'.log ≡ rude b.log
  pub accesses : length b'.log ≤ length b.log + n

pub nothing-Does : (b : Bus) → Does (λ t. t) 0 b b
nothing-Does b = record { talked = refl; no_ruder = refl; accesses = omega arith }

pub both-Does :
    {F G : Talk → Talk} {n m : ℕ} {b b' b'' : Bus}
    → Does F n b b'
    → Does G m b' b''
    → Does (λ t. G (F t)) (n + m) b b''
both-Does {G = G} d e = record {
  talked = e.talked ∙ ap G d.talked;
  no_ruder = e.no_ruder ∙ d.no_ruder;
  accesses = omega (arith, d.accesses, e.accesses);
}

pub at_most-Does : {F : Talk → Talk} {n m : ℕ} {b b' : Bus} → n ≤ m → Does F n b b' → Does F m b b'
at_most-Does le d = record {
  talked = d.talked;
  no_ruder = d.no_ruder;
  accesses = omega (arith, d.accesses, le);
}

-- the bytes that a read gives
abbrev pub bytes : Option ℕ → List ℕ
bytes none = []
bytes (some v) = v ∷ []

pub hear_nothing : (t : Talk) → hear [] t ≡ t
hear_nothing [] = refl
hear_nothing ((c, ws) ∷ t) = rw append-nil refl

pub hear-hear : (vs ws : List ℕ) (t : Talk) → hear ws (hear vs t) ≡ hear (vs ++ ws) t
hear-hear vs ws [] = refl
hear-hear vs ws ((c, us) ∷ t) = rw append_assoc refl

pub poll_output-Does :
    (rounds : ℕ) (b : Bus)
    → Does (hear (bytes (poll_output rounds b).0)) (rounds + 1) b (poll_output rounds b).1
unfolding poll_output inportb
poll_output-Does zero b = record {
  talked = ground (arith, hear_nothing (talk b.log));
  no_ruder = refl;
  accesses = ground arith;
}
poll_output-Does (suc rounds) b =
    let h = poll_output-Does rounds (inportb command_port b).1 in
    elim (Bool-cases (testbit (inportb command_port b).0 0 == 0x1)) [
      | inl ready ↦ rw ready (record { talked = refl; no_ruder = refl; accesses = ground arith })
      | inr busy ↦ rw busy (record {
        talked = h.talked;
        no_ruder = h.no_ruder;
        accesses = omega (arith, h.accesses);
      })
    ]

pub send_when_empty-Does :
    (rounds v : ℕ) (b : Bus) → Does (λ t. t) (rounds + 1) b (send_when_empty rounds v b).1
unfolding send_when_empty inportb outportb
send_when_empty-Does zero v b = record { talked = refl; no_ruder = refl; accesses = ground arith }
send_when_empty-Does (suc rounds) v b =
    let h = send_when_empty-Does rounds v (inportb command_port b).1 in
    elim (Bool-cases (testbit (inportb command_port b).0 1 == 0)) [
      | inl empty ↦
          rw empty (record { talked = refl; no_ruder = rw empty refl; accesses = ground arith })
      | inr full ↦ rw full (record {
        talked = h.talked;
        no_ruder = h.no_ruder;
        accesses = omega (arith, h.accesses);
      })
    ]

pub write_ps2_bcommand-Does :
    (c : ℕ) (b : Bus) → Does (λ t. (c % 2 ^ 8, []) ∷ t) 1 b (write_ps2_bcommand c b).1
unfolding write_ps2_bcommand outportb
write_ps2_bcommand-Does c b = record { talked = refl; no_ruder = refl; accesses = ground arith }

pub write_ps2_bcommand_ret-Does :
    (c : ℕ) (b : Bus)
    → Does
        (λ t. (c % 2 ^ 8, bytes (write_ps2_bcommand_ret c b).0) ∷ t)
        100002
        b
        (write_ps2_bcommand_ret c b).1
unfolding write_ps2_bcommand_ret write_ps2_bcommand
write_ps2_bcommand_ret-Does c b =
    both-Does (write_ps2_bcommand-Does c b) (poll_output-Does timeout (write_ps2_bcommand c b).1)

pub write_ps2_2bcommand-Does :
    (c : ℕ) (b : Bus) → Does (λ t. (c % 2 ^ 8, []) ∷ t) 100002 b (write_ps2_2bcommand c b).1
unfolding write_ps2_2bcommand write_ps2_bcommand
write_ps2_2bcommand-Does c b =
    both-Does (write_ps2_bcommand-Does c b)
      (send_when_empty-Does timeout (c / 2 ^ 8) (write_ps2_bcommand c b).1)

pub flush_out_buff-Does :
    (b : Bus) → Does (hear ((flush_out_buff b).0 ∷ [])) 1 b (flush_out_buff b).1
unfolding flush_out_buff inportb
flush_out_buff-Does b = record { talked = refl; no_ruder = refl; accesses = ground arith }
