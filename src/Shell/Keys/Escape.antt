-- ===== src/Shell/Keys/Escape.antt =====
-- The escape sequence Esc O, which some keyboards send for Home and End.
use puny_gui.Prelude.{◌≡◌, ap, List, ◌∷◌}
use puny_gui.Shell.State.{Editor, Read, byte}
use puny_gui.Shell.Terminal.{next_read, later_reads, after_read}
use puny_gui.Shell.Keys.{
  press, again, escape, read_sequence, sequence_from, read_seq, alt_sequence, run_sequence,
}

-- Where the byte behind an Esc is the letter O, the case of Esc takes that byte, does nothing
-- else, and leaves the bytes behind it to be read as keys of their own.
pub press-escape_o :
    (s : Editor) (rest : List Read)
    → s.input ≡ byte b'O' ∷ rest
    → press escape s ≡ (record s { input = rest }, again)
unfolding press read_sequence sequence_from read_seq alt_sequence after_read next_read later_reads
    run_sequence
press-escape_o s rest e = ap (λ input. press escape (record s { input = input })) e
