-- ===== src/Ps2/Devices.antt =====
-- The reset of a device by src/kernel/Drivers/PS2/PS2_Controller.c.
use icarus.Prelude.{
  ℕ, ◌+◌, ◌≡◌, refl, sym, ◌∙◌, ap, arith, Bool, true, false, ◌&&◌, ◌||◌, ◌==◌, if◌then◌else◌,
  Option, none, some, List, [], ◌∷◌, ◌++◌, Bool-cases, inl, inr,
}
use mathlib.Core.Path.{subst, fun_ext}
use mathlib.Core.List.{append-nil, append_assoc}
use icarus.Ps2.{
  Bus, Io, timeout, write_ps2_bcommand, ps2_read_timeout, ps2_write_timeout, ps2_send_dev,
  first_byte, second_byte, read_pair, ps2_reset_dev, Reset, reset_ok, test_failed, nothing_there,
  ◌>>=◌, pure,
}
use icarus.Ps2.Talk.{
  Does, both-Does, at_most-Does, nothing-Does, hear, hear-hear, hear_nothing, bytes, Talk,
  poll_output-Does, send_when_empty-Does, write_ps2_bcommand-Does,
}

-- the command that turns what is sent to the second device
abbrev pub addressed : (port : ℕ) → Talk → Talk
addressed port = if port == 2 then (λ t. (0xD4, []) ∷ t) else (λ t. t)

-- what a device's bytes tell: FA and AA in either order, FC, something else, or too few
abbrev pub verdict : List ℕ → Reset
verdict [] = nothing_there
verdict (r1 ∷ []) = if r1 == 0xFC then test_failed else nothing_there
verdict (r1 ∷ r2 ∷ _) =
    if (r1 == 0xFA && r2 == 0xAA) || (r1 == 0xAA && r2 == 0xFA) then reset_ok else test_failed

ps2_read_timeout-Does :
    (b : Bus) → Does (hear (bytes (ps2_read_timeout b).0)) 100001 b (ps2_read_timeout b).1
unfolding ps2_read_timeout
ps2_read_timeout-Does b = poll_output-Does timeout b

ps2_send_dev-Does :
    (port v : ℕ) (b : Bus) → Does (addressed port) 100002 b (ps2_send_dev port v b).1
unfolding ps2_send_dev ps2_write_timeout
ps2_send_dev-Does port v b = elim (Bool-cases (port == 2)) [
  | inl second ↦ rw second (
      both-Does (write_ps2_bcommand-Does 0xD4 b)
        (send_when_empty-Does timeout v (write_ps2_bcommand 0xD4 b).1))
  | inr first ↦ rw first (at_most-Does (omega arith) (send_when_empty-Does timeout v b))
]

-- what a part of the routine hears, and its result, given the bytes before
record Ends (before : List ℕ) (n : ℕ) (b : Bus) (out : Reset × Bus) : Type 0 where
  heard : List ℕ
  does : Does (hear heard) n b out.1
  decided : out.0 ≡ verdict (before ++ heard)

quiet-Does : (n : ℕ) (b : Bus) → Does (hear []) n b b
quiet-Does n b =
    subst (λ F. Does F n b b) (fun_ext λ t. sym (hear_nothing t))
      (at_most-Does (omega arith) (nothing-Does b))

quiet-Ends :
    (before : List ℕ) (n : ℕ) (b : Bus) (r : Reset) → r ≡ verdict before → Ends before n b (r, b)
quiet-Ends before n b r e = record {
  heard = [];
  does = quiet-Does n b;
  decided = e ∙ ap verdict (sym (append-nil before));
}

read_pair-Ends : (r1 r2 : ℕ) (b : Bus) → Ends (r1 ∷ r2 ∷ []) 100001 b (read_pair r1 r2 b)
read_pair-Ends r1 r2 b = elim (Bool-cases (r1 == 0xFA && r2 == 0xAA || r1 == 0xAA && r2 == 0xFA)) [
  | inl pair ↦ rw pair (record {
    heard = bytes (ps2_read_timeout b).0;
    does = ps2_read_timeout-Does b;
    decided = rw pair refl;
  })
  | inr other ↦ rw other (quiet-Ends (r1 ∷ r2 ∷ []) 100001 b test_failed (rw other refl))
]

-- a byte that is read, and what the rest makes of it
after_read :
    (before : List ℕ) (n : ℕ) (b : Bus) (rest : Option ℕ → Io Reset)
    → ((r : Option ℕ) (b' : Bus) → Ends (before ++ bytes r) n b' (rest r b'))
    → Ends before (100001 + n) b ((ps2_read_timeout >>= rest) b)
after_read before n b rest ends =
    let e = ends (ps2_read_timeout b).0 (ps2_read_timeout b).1 in
    record {
      heard = bytes (ps2_read_timeout b).0 ++ e.heard;
      does =
          subst (λ F. Does F (100001 + n) b ((ps2_read_timeout >>= rest) b).1)
            (fun_ext λ t. hear-hear (bytes (ps2_read_timeout b).0) e.heard t)
            (both-Does (ps2_read_timeout-Does b) e.does);
      decided = e.decided ∙ ap verdict (append_assoc before (bytes (ps2_read_timeout b).0) e.heard);
    }

second_byte-Ends :
    (r1 : ℕ)
    → (r1 == 0xFC) ≡ false
    → (r : Option ℕ) (b : Bus) → Ends (r1 ∷ bytes r) 100001 b (second_byte r1 r b)
second_byte-Ends r1 ne none b = quiet-Ends (r1 ∷ []) 100001 b nothing_there (rw ne refl)
second_byte-Ends r1 ne (some r2) b = read_pair-Ends r1 r2 b

first_byte-Ends : (r : Option ℕ) (b : Bus) → Ends (bytes r) 200002 b (first_byte r b)
first_byte-Ends none b = quiet-Ends [] 200002 b nothing_there refl
first_byte-Ends (some r1) b = elim (Bool-cases (r1 == 0xFC)) [
  | inl failed ↦ rw failed (quiet-Ends (r1 ∷ []) 200002 b test_failed (rw failed refl))
  | inr more ↦ rw more (after_read (r1 ∷ []) 100001 b (second_byte r1) (second_byte-Ends r1 more))
]

-- a whole reset
pub record ResetBy (port : ℕ) (b : Bus) (out : Reset × Bus) : Type 0 where
  pub heard : List ℕ
  pub does : Does (λ t. hear heard (addressed port t)) 400005 b out.1
  pub decided : out.0 ≡ verdict heard

reset_sent :
    (sent : Bool) (b : Bus)
    → Ends [] 300003 b ((if sent then ps2_read_timeout >>= first_byte else pure nothing_there) b)
reset_sent true b = after_read [] 200002 b first_byte first_byte-Ends
reset_sent false b = quiet-Ends [] 300003 b nothing_there refl

-- For every port number and every controller: ps2_reset_dev ends after at most 400,005 accesses
-- of the ports. It gives the controller the command D4 for the second device and no command else,
-- writes no byte to the data port but right behind a status that shows room, and its result rests
-- on the bytes that it reads from the data port: 0 exactly if the first two are FA and AA in
-- either order, -2 if there is none or only one that is not FC, and -1 otherwise.
pub ps2_reset_dev-ResetBy : (port : ℕ) (b : Bus) → ResetBy port b (ps2_reset_dev port b)
unfolding ps2_reset_dev
ps2_reset_dev-ResetBy port b =
    let e = reset_sent (ps2_send_dev port 0xFF b).0 (ps2_send_dev port 0xFF b).1 in
    record {
      heard = e.heard;
      does = both-Does (ps2_send_dev-Does port 0xFF b) e.does;
      decided = e.decided;
    }
