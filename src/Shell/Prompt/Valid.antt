-- ===== src/Shell/Prompt/Valid.antt =====
-- The loop of `line`: its end, and the well-formedness of the editor.
use puny_gui.Prelude.{
  ℕ, zero, suc, ◌<◌, ◌≡◌, ◌≢◌, refl, List, [], ◌∷◌, arith, length, Bool-cases, inl, inr,
}
use puny_gui.Shell.State.{Editor, Read, byte, eof, failed}
use puny_gui.Shell.Terminal.{next_read, later_reads, after_read}
use puny_gui.Shell.Drawn.{after_read-Drawn}
use puny_gui.Shell.Keys.{key_of, Next, again, accepted, rejected}
use puny_gui.Shell.Keys.Ready.{IsReady, Leads, Leads-trans, Drawn-Leads}
use puny_gui.Shell.Keys.Valid.{press-Leads, key_of-IsTyped}
use puny_gui.Shell.Prompt.{on_read, round, carry_on, rounds, is_running}

on_read-Leads : (r : Read) {s : Editor} → IsReady s → Leads s (on_read r s).0
unfolding on_read
on_read-Leads (byte c) r = press-Leads (key_of c) (key_of-IsTyped c) r
on_read-Leads eof r = record { ready = r; reads = omega arith }
on_read-Leads failed r = record { ready = r; reads = omega arith }

round-Leads : {s : Editor} → IsReady s → Leads s (round s).0
unfolding round
round-Leads {s} r =
    let taken = Drawn-Leads (after_read-Drawn s) r in
    Leads-trans taken (on_read-Leads (next_read s.input) taken.ready)

later_reads-lt :
    (input : List Read) (c : ℕ)
    → next_read input ≡ byte c
    → length (later_reads input) < length input
unfolding next_read later_reads
later_reads-lt [] c e = cc
later_reads-lt (r ∷ rest) c e = omega arith

-- A round after which the loop goes on has taken a byte.
on_read-again : (r : Read) (s : Editor) → (on_read r s).1 ≡ again → (c : ℕ) × (r ≡ byte c)
unfolding on_read
on_read-again (byte c) s e = (c, refl)
on_read-again eof s e = cc
on_read-again failed s e = cc

round-again :
    {s : Editor} → IsReady s → (round s).1 ≡ again → length (round s).0.input < length s.input
unfolding round after_read
round-again {s} r e =
    let (c, found) = on_read-again (next_read s.input) (after_read s) e in
    let taken = Drawn-Leads (after_read-Drawn s) r in
    omega
      (arith, later_reads-lt s.input c found, (on_read-Leads (next_read s.input) taken.ready).reads)

-- The outcome of the loop: it has ended, in a well-formed state.
pub record Ended (s : Editor) (r : Editor × Next) : Type 0 where
  pub leads_to : Leads s r.0
  pub ended : r.1 ≢ again

carry_on-Ended :
    (rest : Editor → Editor × Next) (s t : Editor) (n : Next)
    → Leads s t
    → (n ≡ again → Ended t (rest t))
    → Ended s (carry_on rest (t, n))
unfolding carry_on
carry_on-Ended rest s t accepted l h = record { leads_to = l; ended = cc }
carry_on-Ended rest s t rejected l h = record { leads_to = l; ended = cc }
carry_on-Ended rest s t again l h = elim (Bool-cases (is_running t.status)) [
  | inl on ↦
      rw (on, carry_on)
        (record { leads_to = Leads-trans l (h refl).leads_to; ended = (h refl).ended })
  | inr off ↦ rw (off, carry_on) (record { leads_to = l; ended = cc })
]

-- From a well-formed state and with fuel above the number of reads to come, the loop of `line`
-- ends by itself, whatever the reads give, and leaves the line, the history and the tables well
-- formed.
pub rounds-Ended : (f : ℕ) {s : Editor} → IsReady s → length s.input < f → Ended s (rounds f s)
unfolding rounds
rounds-Ended zero r h = absurd (omega arith)
rounds-Ended (suc f) {s} r h =
    carry_on-Ended (rounds f) s (round s).0 (round s).1 (round-Leads r)
      λ e. rounds-Ended f (round-Leads r).ready (omega (arith, round-again r e))
