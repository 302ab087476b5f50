-- ===== src/Shell/Frame.antt =====
-- What the operations on the line have to do with the history, the tables for completion, the host
-- and the input.
use puny_gui.Prelude.{
  ℕ, zero, suc, ◌-◌, ◌≤◌, ◌≡◌, length, refl, ◌∙◌, Bool, false, arith, ltb, ◌==◌, not, ◌&&◌,
  Bool-cases, inl, inr,
}
use puny_gui.Shell.State.{Editor}
use puny_gui.Shell.Screen.{refresh, clearlines}
use puny_gui.Shell.Edit.{insert, kbackspace, kdelete, kleft, kright}
use puny_gui.Shell.Words.{
  kleftw, krightw, backspace_while, erase_left, delete_while, erase_right, is_space, not_space,
  skip_left, skip_right, kbackspacew, kdeletew,
}

pub record Frame (s t : Editor) : Type 0 where
  pub history : t.history ≡ s.history
  pub history_count : t.history_count ≡ s.history_count
  pub historyi : t.historyi ≡ s.historyi
  pub complete_env : t.complete_env ≡ s.complete_env
  pub host : t.host ≡ s.host
  pub reads : length t.input ≤ length s.input

pub Frame-refl : (s : Editor) → Frame s s
Frame-refl s = record {
  history = refl;
  history_count = refl;
  historyi = refl;
  complete_env = refl;
  host = refl;
  reads = omega arith;
}

pub Frame-trans : {s t u : Editor} → Frame s t → Frame t u → Frame s u
Frame-trans p q = record {
  history = q.history ∙ p.history;
  history_count = q.history_count ∙ p.history_count;
  historyi = q.historyi ∙ p.historyi;
  complete_env = q.complete_env ∙ p.complete_env;
  host = q.host ∙ p.host;
  reads = omega (arith, p.reads, q.reads);
}

pub insert-Frame : (c : ℕ) (draw : Bool) (s : Editor) → Frame s (insert c draw s).0
unfolding insert
insert-Frame c draw s = ground arith

pub kbackspace-Frame : (draw : Bool) (s : Editor) → Frame s (kbackspace draw s)
unfolding kbackspace
kbackspace-Frame draw s = ground arith

pub kdelete-Frame : (draw : Bool) (s : Editor) → Frame s (kdelete draw s)
unfolding kdelete
kdelete-Frame draw s = ground arith

pub kleft-Frame : (s : Editor) → Frame s (kleft s)
unfolding kleft
kleft-Frame s = ground arith

pub kright-Frame : (s : Editor) → Frame s (kright s)
unfolding kright
kright-Frame s = ground arith

pub clearlines-Frame : (s : Editor) → Frame s (clearlines s)
unfolding clearlines
clearlines-Frame s = ground arith

-- The rule for the two loops over `kbackspace` and `kdelete`: what each round keeps, the loop keeps.
module _ {ℓ} (P : Editor → Type ℓ) (test : ℕ → Bool) where
  backspace_while_inv :
      ((t : Editor) → P t → P (kbackspace false t))
      → (n : ℕ) (s : Editor) → P s
      → P (backspace_while n test s)
  unfolding backspace_while
  backspace_while_inv keep zero s h = h
  backspace_while_inv keep (suc n) s h =
      elim (Bool-cases (not (s.pos == 0) && test (s.buf (s.pos - 1)))) [
        | inl more ↦
            rw (backspace_while, more) (backspace_while_inv keep n (kbackspace false s) (keep s h))
        | inr done ↦ rw (backspace_while, done) h
      ]

  delete_while_inv :
      ((t : Editor) → P t → P (kdelete false t))
      → (n : ℕ) (s : Editor) → P s
      → P (delete_while n test s)
  unfolding delete_while
  delete_while_inv keep zero s h = h
  delete_while_inv keep (suc n) s h = elim (Bool-cases (ltb s.pos s.len && test (s.buf s.pos))) [
    | inl more ↦ rw (delete_while, more) (delete_while_inv keep n (kdelete false s) (keep s h))
    | inr done ↦ rw (delete_while, done) h
  ]

  pub erase_left_inv :
      ((t : Editor) → P t → P (kbackspace false t)) → (s : Editor) → P s → P (erase_left test s)
  unfolding erase_left
  erase_left_inv keep s h = backspace_while_inv keep s.pos s h

  pub erase_right_inv :
      ((t : Editor) → P t → P (kdelete false t)) → (s : Editor) → P s → P (erase_right test s)
  unfolding erase_right
  erase_right_inv keep s h = delete_while_inv keep (s.len - s.pos) s h

erase_left-Frame : (test : ℕ → Bool) (s : Editor) → Frame s (erase_left test s)
erase_left-Frame test s =
    erase_left_inv (Frame s) test (λ t h. Frame-trans h (kbackspace-Frame false t)) s (Frame-refl s)

erase_right-Frame : (test : ℕ → Bool) (s : Editor) → Frame s (erase_right test s)
erase_right-Frame test s =
    erase_right_inv (Frame s) test (λ t h. Frame-trans h (kdelete-Frame false t)) s (Frame-refl s)

pub refresh-Frame : {s t : Editor} → Frame s t → Frame s (refresh t)
unfolding refresh
refresh-Frame f = record {
  history = f.history;
  history_count = f.history_count;
  historyi = f.historyi;
  complete_env = f.complete_env;
  host = f.host;
  reads = f.reads;
}

pub kbackspacew-Frame : (s : Editor) → Frame s (kbackspacew s)
unfolding kbackspacew
kbackspacew-Frame s =
    refresh-Frame (Frame-trans (erase_left-Frame is_space s) (erase_left-Frame not_space _))

pub kdeletew-Frame : (s : Editor) → Frame s (kdeletew s)
unfolding kdeletew
kdeletew-Frame s =
    refresh-Frame (Frame-trans (erase_right-Frame is_space s) (erase_right-Frame not_space _))

pub kleftw-Frame : (s : Editor) → Frame s (kleftw s)
unfolding kleftw skip_left
kleftw-Frame s = refresh-Frame (record {
  history = refl;
  history_count = refl;
  historyi = refl;
  complete_env = refl;
  host = refl;
  reads = omega arith;
})

pub krightw-Frame : (s : Editor) → Frame s (krightw s)
unfolding krightw skip_right
krightw-Frame s = refresh-Frame (record {
  history = refl;
  history_count = refl;
  historyi = refl;
  complete_env = refl;
  host = refl;
  reads = omega arith;
})
