-- ===== src/Shell/Keys/Ready.antt =====
-- A well-formed editor at the keys, and the cases that move or erase.
use puny_gui.Prelude.{ℕ, ◌+◌, ◌-◌, ◌≤◌, refl, ap, arith, length, update, memmove}
use puny_gui.Shell.State.{Editor, IsValid, IsValid-same}
use puny_gui.Shell.Screen.{refresh}
use puny_gui.Shell.Edit.Valid.{refresh-IsValid}
use puny_gui.Shell.Frame.{Frame, Frame-refl, refresh-Frame}
use puny_gui.Shell.Drawn.{Drawn, Drawn-IsValid, raw_again-Drawn}
use puny_gui.Shell.History.{historymove, Delta}
use puny_gui.Shell.History.Valid.{IsStored, historymove-IsValid, historymove-env}
use puny_gui.Shell.Complete.Valid.{IsTables}
use puny_gui.Shell.Keys.{go_home, go_end, kill_line, kill_front, suspend_self}

-- The line is valid, the entries are lines, and no symbol of the tables holds a NUL.
pub record IsReady (s : Editor) : Type 0 where
  pub line : IsValid s
  pub stored : IsStored s
  pub tables : IsTables s.complete_env

pub IsStored-Frame : {s t : Editor} → Frame s t → IsStored s → IsStored t
IsStored-Frame f h = record {
  bounded = rw f.history_count h.bounded;
  index = rw (f.historyi, f.history_count) h.index;
  stored = λ j l. rw f.history (h.stored j (omega (arith, f.history_count)));
}

-- A later state, well formed and with no more input than there was.
pub record Leads (s t : Editor) : Type 0 where
  pub ready : IsReady t
  pub reads : length t.input ≤ length s.input

pub Leads-trans : {s t u : Editor} → Leads s t → Leads t u → Leads s u
Leads-trans p q = record { ready = q.ready; reads = omega (arith, p.reads, q.reads) }

pub leads : {s t : Editor} → IsReady s → IsValid t → Frame s t → Leads s t
leads r v f = record {
  ready = record {
    line = v;
    stored = IsStored-Frame f r.stored;
    tables = rw f.complete_env r.tables;
  };
  reads = f.reads;
}

pub Drawn-Leads : {s t : Editor} → Drawn s t → IsReady s → Leads s t
Drawn-Leads d r = leads r (Drawn-IsValid d r.line) d.frame

pub historymove-Leads : {s : Editor} (delta : Delta) → IsReady s → Leads s (historymove delta s)
historymove-Leads {s} delta r =
    let (v, h) = historymove-IsValid delta r.line r.stored in
    let (tables, input) = historymove-env delta s in
    record {
      ready = record { line = v; stored = h; tables = rw tables r.tables };
      reads = omega (arith, ap length input);
    }

-- A move of the cursor within the line.
moved-Leads :
    {s : Editor} (p : ℕ) → p ≤ s.len → IsReady s → Leads s (refresh (record s { pos = p }))
unfolding refresh
moved-Leads {s} p l r = leads r (IsValid-same s _ r.line refl refl l) (record {
  history = refl;
  history_count = refl;
  historyi = refl;
  complete_env = refl;
  host = refl;
  reads = omega arith;
})

pub go_home-Leads : {s : Editor} → IsReady s → Leads s (go_home s)
unfolding go_home
go_home-Leads r = moved-Leads 0 (omega arith) r

pub go_end-Leads : {s : Editor} → IsReady s → Leads s (go_end s)
unfolding go_end
go_end-Leads r = moved-Leads _ (omega arith) r

pub kill_line-Leads : {s : Editor} → IsReady s → Leads s (kill_line s)
unfolding kill_line
kill_line-Leads {s} r = leads r (refresh-IsValid cut_line) (
    refresh-Frame (record {
      history = refl;
      history_count = refl;
      historyi = refl;
      complete_env = refl;
      host = refl;
      reads = omega arith;
    }))
  where
    open r.line use {cursor, fits, no_null, clean}

    cut_line : IsValid (record s { buf = update s.buf s.pos 0; len = s.pos })
    cut_line = record {
      cursor = omega arith;
      fits = omega arith;
      terminated = ground arith;
      no_null = λ j h. ground (arith, no_null j);
      clean = λ j h. ground (arith, clean j);
    }

pub kill_front-Leads : {s : Editor} → IsReady s → Leads s (kill_front s)
unfolding kill_front
kill_front-Leads {s} r = leads r (refresh-IsValid rest) (
    refresh-Frame (record {
      history = refl;
      history_count = refl;
      historyi = refl;
      complete_env = refl;
      host = refl;
      reads = omega arith;
    }))
  where
    open r.line use {cursor, fits, no_null, clean}

    rest : IsValid (record s {
      buf = update (memmove s.buf 0 s.pos (s.len - s.pos)) (s.len - s.pos) 0;
      len = s.len - s.pos;
      pos = 0;
    })
    rest = record {
      cursor = omega arith;
      fits = omega arith;
      terminated = ground arith;
      no_null = λ j h. ground (arith, no_null (s.pos + (j - 0)));
      clean = λ j h. ground (arith, clean j);
    }

pub suspend_self-Leads : {s : Editor} → IsReady s → Leads s (suspend_self s)
unfolding suspend_self
suspend_self-Leads {s} r =
    let woken = Drawn-Leads (raw_again-Drawn s) r in
    Leads-trans woken
      (leads woken.ready (refresh-IsValid woken.ready.line) (refresh-Frame (Frame-refl _)))
