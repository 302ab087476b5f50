-- ===== src/Shell/Witnesses.antt =====
-- States and inputs at which the theorems on the line editor apply.
use puny_gui.Prelude.{
  ℕ, zero, suc, ◌+◌, ◌-◌, ◌≤◌, ◌<◌, ◌≡◌, ◌↔◌, refl, true, List, [], ◌∷◌, ◌++◌, none, some, arith,
  codes, length, All, take, drop_while, slice, update, if◌then◌else◌, ltb,
}
use mathlib.Core.List.{Perm}
use puny_gui.Shell.State.{
  Editor, symbol, crashed, text, IsValid, IsValid-same, line_max, history_max,
}
use puny_gui.Shell.Cursor.{
  view, content, typed, erased_left, erased_right, moved_left, moved_right, word_erased_left,
  word_erased_right,
}
use puny_gui.Shell.Screen.{refresh, offset, cut, frame}
use puny_gui.Shell.Screen.Window.{refresh_lem, refresh_wide_prompt}
use puny_gui.Shell.Edit.{insert, kleft, kright, kbackspace, kdelete}
use puny_gui.Shell.Edit.Refine.{text-eq-content, view-insert, byte_edits}
use puny_gui.Shell.Words.{is_space, not_space, kbackspacew, kdeletew, kleftw, krightw}
use puny_gui.Shell.Store.{Store, Session, run_sessions, no_history, janet_line_deinit}
use puny_gui.Shell.Store.Refine.{Holds, moves, on_editor, on_store, on_store-Holds}
use puny_gui.Shell.Store.Sound.{Succeeds}
use puny_gui.Shell.Store.Safe.{IsEmpty, janet_line_deinit-IsEmpty}
use puny_gui.Shell.Words.Refine.{word_edits}
use puny_gui.Shell.History.{
  load_entry, historymove, plus, minus, addhistory, replacehistory, entries,
}
use puny_gui.Shell.History.Valid.{IsLine, IsEntry, IsStored, load_entry-IsValid}
use puny_gui.Shell.History.Refine.{entries-addhistory, entries-replacehistory, accepted}
use puny_gui.Shell.History.Recall.{stored, historymove_lem, historymove-historymove}
use puny_gui.Shell.Matches.{strncmp, is_match, check_match, compare_bytes, longest_common_prefix}
use puny_gui.Shell.Matches.Prefix.{Begins, BeginsAll, is_match_iff, longest_common_prefix_lem}
use puny_gui.Shell.Matches.Order.{
  NoNull, Le, lex, IsSorted, compare_bytes-eq-lex, check_match_room, check_match_full,
}
use puny_gui.Shell.Frame.{Frame}
use puny_gui.Shell.Complete.{kshowcomp}
use puny_gui.Shell.Complete.Valid.{kshowcomp-Kept}
use puny_gui.Shell.Keys.{plain, kill_before, press, key_of, escape, again}
use puny_gui.Shell.Keys.Ready.{IsReady, Leads}
use puny_gui.Shell.Keys.Valid.{press-Leads}
use puny_gui.Shell.Keys.Refine.{edited, view-press}
use puny_gui.Shell.Keys.Steady.{IsOpen}
use puny_gui.Shell.Prompt.{checktermsupport, rounds, janet_line_get}
use puny_gui.Shell.Prompt.Valid.{Ended, rounds-Ended}
use puny_gui.Shell.Keys.Escape.{press-escape_o}
use puny_gui.Shell.History.Kept.{HasLines, Keeps, replacehistory-Keeps}
use puny_gui.Shell.Prompt.Typing.{typed_bytes, edit_all, Entered, rounds-Entered}
use puny_gui.Shell.Prompt.Answer.{IsIdle, IsTerminal, HandsBack, blank, janet_line_get_lem}
use puny_gui.Shell.Prompt.Lines.{Prompted, getlines, handed_back, recorded_lines, getlines_lem}
use puny_gui.Shell.Tests.{start}

start-IsValid : (keys : List ℕ) → IsValid (start keys)
start-IsValid keys = record {
  cursor = omega arith;
  fits = omega arith;
  terminated = refl;
  no_null = λ j h. absurd (omega arith);
  clean = λ j h. refl;
}

start-IsReady : (keys : List ℕ) → IsReady (start keys)
start-IsReady keys = record {
  line = start-IsValid keys;
  stored = record {
    bounded = omega arith;
    index = omega arith;
    stored = λ j h. absurd (omega arith);
  };
  tables = tt;
}

start-IsIdle : (keys : List ℕ) → IsIdle (start keys)
start-IsIdle keys = record {
  alive = refl;
  clean = λ j h. refl;
  bounded = omega arith;
  lines = λ j h. absurd (omega arith);
  tables = tt;
}

start-IsTerminal : (keys : List ℕ) → IsTerminal 79 (start keys)
unfolding checktermsupport
start-IsTerminal keys = record {
  isatty = refl;
  gets = refl;
  sets = refl;
  writes = refl;
  supported = refl;
  columns = refl;
}

start-IsOpen : (keys : List ℕ) → IsOpen (start keys)
start-IsOpen keys = record { narrow = omega arith; writes = refl }

-- A line with the cursor on its third byte.
abbrev words : List ℕ
words = codes "ab cd"

words-IsLine : IsLine (codes "ab cd")
words-IsLine = omega arith

abbrev draft : Editor
draft = record (load_entry (codes "ab cd") (start [])) { pos = 3 }

draft-IsValid : IsValid draft
unfolding load_entry
draft-IsValid =
    IsValid-same (load_entry words (start [])) draft
      (load_entry-IsValid words (start []) (start-IsValid []) words-IsLine) refl refl (omega arith)

draft-IsInside : draft.pos ≤ draft.len
draft-IsInside = draft-IsValid.cursor

janet_line_get_example :
    HandsBack
      (content (edit_all (codes "ab" ++ 2 ∷ codes "c") blank))
      []
      (start (codes "ab" ++ 2 ∷ codes "c" ++ 13 ∷ []))
      (janet_line_get (codes "> ") (start (codes "ab" ++ 2 ∷ codes "c" ++ 13 ∷ [])))
unfolding key_of
janet_line_get_example =
    janet_line_get_lem (codes "> ") (codes "ab" ++ 2 ∷ codes "c") []
      (start-IsIdle (codes "ab" ++ 2 ∷ codes "c" ++ 13 ∷ []))
      (start-IsTerminal (codes "ab" ++ 2 ∷ codes "c" ++ 13 ∷ [])) (λ n. refl) (omega arith)
      (tt, (tt, (tt, (tt, tt)))) refl

abbrev two_lines : List Prompted
two_lines =
    record { prompt = codes "> "; keys = codes "a" }
    ∷ record { prompt = codes "> "; keys = codes "cd" ++ 2 ∷ [] }
    ∷ []

getlines_example :
    (t : Editor) × (getlines two_lines (start (codes "a" ++ 13 ∷ codes "cd" ++ 2 ∷ 13 ∷ codes "e"))
      ≡ some (handed_back two_lines, t))
    × IsIdle t
    × (entries t
        ≡ recorded_lines two_lines
            (entries (start (codes "a" ++ 13 ∷ codes "cd" ++ 2 ∷ 13 ∷ codes "e"))))
    × (t.input ≡ typed_bytes (codes "e"))
unfolding key_of
getlines_example =
    getlines_lem two_lines (typed_bytes (codes "e"))
      (start (codes "a" ++ 13 ∷ codes "cd" ++ 2 ∷ 13 ∷ codes "e"))
      (start-IsIdle (codes "a" ++ 13 ∷ codes "cd" ++ 2 ∷ 13 ∷ codes "e"))
      (start-IsTerminal (codes "a" ++ 13 ∷ codes "cd" ++ 2 ∷ 13 ∷ codes "e")) (λ n. refl)
      ((omega arith, (tt, tt)), ((omega arith, (tt, (tt, (tt, tt)))), tt)) refl

rounds-Ended_example : Ended (start (codes "ab")) (rounds 3 (start (codes "ab")))
rounds-Ended_example = rounds-Ended 3 (start-IsReady (codes "ab")) (omega arith)

rounds-Entered_example :
    Entered
      (start (codes "ab" ++ 13 ∷ []))
      (edit_all (codes "ab") (view (start (codes "ab" ++ 13 ∷ []))))
      []
      (rounds 3 (start (codes "ab" ++ 13 ∷ [])))
unfolding key_of
rounds-Entered_example =
    rounds-Entered (codes "ab") [] 3 (start-IsReady (codes "ab" ++ 13 ∷ []))
      (start-IsOpen (codes "ab" ++ 13 ∷ [])) refl (tt, (tt, tt)) refl (omega arith)

press-Leads_example : Leads (start []) (press (plain 97) (start [])).0
press-Leads_example = press-Leads (plain 97) (omega arith) (start-IsReady [])

view-press_example :
    view (press kill_before draft).0
    ≡ edited (ltb draft.len (line_max - 1)) kill_before (view draft)
view-press_example = view-press kill_before draft tt draft-IsInside

text-eq-content_example : text draft ≡ content (view draft)
text-eq-content_example = text-eq-content draft draft-IsInside

view-insert_example :
    view (insert 120 true draft).0
    ≡ (if ltb draft.len (line_max - 1) then typed 120 (view draft) else view draft)
view-insert_example = view-insert 120 true draft draft-IsInside

byte_edits_example :
    (view (kbackspace true draft) ≡ erased_left (view draft))
    × (view (kdelete true draft) ≡ erased_right (view draft))
    × (view (kleft draft) ≡ moved_left (view draft))
    × (view (kright draft) ≡ moved_right (view draft))
byte_edits_example = byte_edits true draft draft-IsInside

word_edits_example :
    (view (kbackspacew draft) ≡ word_erased_left is_space (view draft))
    × (view (kdeletew draft) ≡ word_erased_right is_space (view draft))
    × ((view (kleftw draft)).left ≡ (word_erased_left is_space (view draft)).left)
    × (content (view (kleftw draft)) ≡ content (view draft))
    × ((view (krightw draft)).right ≡ drop_while is_space (drop_while not_space (view draft).right))
    × (content (view (krightw draft)) ≡ content (view draft))
word_edits_example = word_edits draft draft-IsInside

-- The draft with its own entry and an older one.
abbrev recorded : Editor
recorded = record draft {
  history = update (update (λ i. none) 0 (some (codes "a"))) 1 (some (codes "ls"));
  history_count = 2;
}

recorded-IsValid : IsValid recorded
recorded-IsValid = IsValid-same draft recorded draft-IsValid refl refl draft-IsInside

recorded-IsStored : IsStored recorded
unfolding load_entry
recorded-IsStored = record { bounded = omega arith; index = omega arith; stored = entry }
  where
    entry : (j : ℕ) → j < 2 → IsEntry (recorded.history j)
    entry zero h = omega arith
    entry (suc zero) h = omega arith
    entry (suc (suc j)) h = absurd (omega arith)

recorded-HasLines : HasLines recorded
unfolding load_entry
recorded-HasLines zero h = omega arith
recorded-HasLines (suc zero) h = omega arith
recorded-HasLines (suc (suc j)) h = absurd (omega arith)

entries-addhistory_example :
    entries (addhistory draft) ≡ some (text draft) ∷ take (history_max - 1) (entries draft)
unfolding load_entry
entries-addhistory_example = entries-addhistory draft-IsValid (omega arith) refl

entries-replacehistory_example :
    entries (replacehistory recorded) ≡ accepted (text recorded) (slice recorded.history 1 1)
unfolding load_entry
entries-replacehistory_example = entries-replacehistory 1 recorded-IsValid refl refl λ h e. cc

historymove_example :
    (text (historymove (plus 1) recorded) ≡ codes "ls")
    × ((historymove (plus 1) recorded).historyi ≡ 1)
    × (1 < recorded.history_count)
    × ((historymove (plus 1) recorded).history ≡ stored recorded)
unfolding load_entry
historymove_example =
    historymove_lem (plus 1) 1 {e = codes "ls"} recorded-IsValid refl (omega arith) (omega arith)
      (λ h. refl, λ h. absurd (omega arith)) refl (omega arith)

historymove-historymove_example :
    text (historymove (minus 1) (historymove (plus 1) recorded)) ≡ text recorded
unfolding load_entry
historymove-historymove_example =
    historymove-historymove {e = codes "ls"} recorded-IsValid recorded-IsStored (λ n. refl)
      (omega arith) refl

check_match_room_example :
    IsSorted (check_match (codes "de") (codes "def") (codes "defn" ∷ []))
    × Perm
        (check_match (codes "de") (codes "def") (codes "defn" ∷ []))
        (codes "def" ∷ codes "defn" ∷ [])
unfolding is_match strncmp
check_match_room_example =
    check_match_room (codes "de") (codes "def") (codes "defn" ∷ []) refl (omega arith) (omega arith)
      (omega arith) (tt, tt)

abbrev copies : ℕ → List (List ℕ)
copies zero = []
copies (suc n) = codes "def" ∷ copies n

length-copies : (n : ℕ) → length (copies n) ≡ n
length-copies zero = refl
length-copies (suc n) = omega (arith, length-copies n)

copies-NoNull : (n : ℕ) → All NoNull (copies n)
copies-NoNull zero = tt
copies-NoNull (suc n) = (omega arith, copies-NoNull n)

copies-Le : (n : ℕ) → All (Le (codes "def")) (copies n)
unfolding lex
copies-Le zero = tt
copies-Le (suc n) = (refl, copies-Le n)

copies-IsSorted : (n : ℕ) → IsSorted (copies n)
copies-IsSorted zero = tt
copies-IsSorted (suc n) = (copies-Le n, copies-IsSorted n)

check_match_full_example :
    (dropped : List ℕ) × IsSorted (check_match (codes "de") (codes "dec") (copies 256))
    × All (λ m. Le m dropped) (check_match (codes "de") (codes "dec") (copies 256))
    × Perm
        (check_match (codes "de") (codes "dec") (copies 256) ++ dropped ∷ [])
        (codes "dec" ∷ copies 256)
unfolding is_match strncmp
check_match_full_example =
    check_match_full (codes "de") (codes "dec") (copies 256) refl (length-copies 256) (omega arith)
      (copies-NoNull 256) (copies-IsSorted 256)

compare_bytes_example :
    compare_bytes (codes "def") (codes "defn") ≡ lex (codes "def") (codes "defn")
compare_bytes_example = compare_bytes-eq-lex (codes "def") (codes "defn") (omega arith)

longest_common_prefix_example :
    BeginsAll
      (longest_common_prefix (codes "defer" ∷ codes "defn" ∷ []))
      (codes "defer" ∷ codes "defn" ∷ [])
    × ((p : List ℕ)
        → BeginsAll p (codes "defer" ∷ codes "defn" ∷ [])
        → Begins p (longest_common_prefix (codes "defer" ∷ codes "defn" ∷ [])))
longest_common_prefix_example = longest_common_prefix_lem (codes "defer") (codes "defn" ∷ [])

is_match_example : (is_match (codes "de") (codes "def") ≡ true) ↔ Begins (codes "de") (codes "def")
is_match_example = is_match_iff (codes "de") (codes "def") (omega arith)

refresh_example :
    ((refresh draft).out ≡ draft.out ++ frame draft)
    × ((refresh draft).status ≡ draft.status)
    × (offset draft ≤ draft.pos)
    × (draft.pos ≤ offset draft + (draft.len - cut draft))
    × (draft.plen + draft.pos - offset draft < draft.cols)
    × (draft.plen + (draft.len - cut draft) ≤ draft.cols)
unfolding load_entry
refresh_example = refresh_lem draft draft-IsInside (omega arith) refl

refresh_wide_example : (refresh (record draft { cols = 2; pos = draft.len })).status ≡ crashed
unfolding load_entry
refresh_wide_example =
    refresh_wide_prompt (record draft { cols = 2; pos = draft.len }) (omega arith) refl

-- The word before the cursor and one table.
abbrev completing : Editor
completing = record draft { complete_env = some ((symbol (codes "bar") ∷ []) ∷ []) }

kshowcomp_example : IsValid (kshowcomp completing) × Frame completing (kshowcomp completing)
kshowcomp_example =
    kshowcomp-Kept {s = completing} ((omega arith, tt), tt)
      (IsValid-same draft completing draft-IsValid refl refl draft-IsInside)

press-escape_o_example :
    press escape (start (codes "OH"))
    ≡ (record (start (codes "OH")) { input = typed_bytes (codes "H") }, again)
press-escape_o_example = press-escape_o (start (codes "OH")) (typed_bytes (codes "H")) refl

replacehistory-Keeps_example : Keeps recorded (replacehistory recorded)
replacehistory-Keeps_example = replacehistory-Keeps recorded-IsValid (omega arith) recorded-HasLines

-- A line, a move to it and back with the line once more, and a line that is given up.
abbrev three_lines : List Session
three_lines =
    record { moves = []; accepted = some (codes "ab") }
    ∷ record {
      moves = (plus 1, codes "x") ∷ (minus 1, codes "ab") ∷ [];
      accepted = some (codes "ab");
    }
    ∷ record { moves = []; accepted = none }
    ∷ []

janet_line_deinit-IsEmpty_example :
    (s : Store) × (run_sessions (λ n. true) three_lines no_history ≡ some s)
    × (s.count ≤ history_max)
    × Succeeds IsEmpty (janet_line_deinit s)
janet_line_deinit-IsEmpty_example = janet_line_deinit-IsEmpty (λ n. true) three_lines (λ n. refl)

-- The memory of that history.
abbrev two_blocks : Store
two_blocks = record {
  cells = update (update (λ i. none) 0 (some 0)) 1 (some 1);
  count = 2;
  index = 0;
  blocks = update (update (λ a. none) 0 (some (codes "a"))) 1 (some (codes "ls"));
  top = 2;
}

two_blocks-Holds : Holds two_blocks recorded
unfolding load_entry
two_blocks-Holds = record {
  sound = record {
    owned = ((codes "a", refl), ((codes "ls", refl), λ a. ground arith));
    unborn = λ a l. ground arith;
    bounded = omega arith;
  };
  shows = refl;
  index = refl;
}

on_store-Holds_example :
    Succeeds
      (λ t. Holds t (on_editor (moves (plus 1)) recorded))
      (on_store (λ n. true) (moves (plus 1)) (text recorded) two_blocks)
unfolding load_entry
on_store-Holds_example =
    on_store-Holds (λ n. true) (moves (plus 1)) (λ n. refl) refl recorded-IsValid two_blocks-Holds
      (omega arith)
