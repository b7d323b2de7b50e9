-- ===== src/Output/File/Stale.antt =====
-- A handle that was closed for a rotation and could not be opened again stays in use.
use monitorbeat.Base.{
  ◌+◌, ◌≡◌, ◌≢◌, arith, subst, refl, ap, ap₂, sym, ◌∙◌, Bool, true, false, Option, none, some, List,
  [], ◌∷◌, ◌++◌, map, length, if◌then◌else◌,
}
use monitorbeat.Base.Int.{pos, leb_int}
use monitorbeat.Base.Text.{Text, codes}
use monitorbeat.Output.Disk.{append}
use monitorbeat.Output.File.{
  File, Faults, Handle, missing, opened, stale, open_file, closed, rotate, write_line, publish_line,
}

-- A sequence of publications, whatever the disk does in each.
unfoldable pub publish_all : List (Faults × Option Text) → File → List Bool × File
publish_all [] f = ([], f)
publish_all ((faults, event) ∷ l) f =
    let (fine, g) = publish_line faults event f in
    let (rest, h) = publish_all l g in (fine ∷ rest, h)

-- A handle that is not nil is written to.
publish_line-direct :
    (faults : Faults) (body : Text) (f : File) (handle : Handle)
    → f.handle ≡ handle
    → handle ≢ missing
    → publish_line faults (some body) f ≡ write_line faults (body ++ codes "\n") f
unfolding publish_line
publish_line-direct faults body f missing h ne = absurd (ne refl)
publish_line-direct faults body f opened h ne =
    subst
      (λ hd.
        publish_line faults (some body) (record f { handle = hd })
        ≡ write_line faults (body ++ codes "\n") (record f { handle = hd }))
      (sym h) refl
publish_line-direct faults body f stale h ne =
    subst
      (λ hd.
        publish_line faults (some body) (record f { handle = hd })
        ≡ write_line faults (body ++ codes "\n") (record f { handle = hd }))
      (sym h) refl

write_line-stale :
    (faults : Faults) (line : Text) (f : File)
    → f.handle ≡ stale
    → write_line faults line f ≡ (false, f)
unfolding write_line
write_line-stale faults line f h =
    subst
      (λ hd. write_line faults line (record f { handle = hd }) ≡ (false, record f { handle = hd }))
      (sym h) refl

abbrev after_line : Text → File → File
after_line line f = record f { disk = append line f.disk; size = f.size + length line }

abbrev if_full : Faults → Text → File → Bool × File
if_full faults line f = (
  true,
  if leb_int f.max_bytes (pos (f.size + length line))
      then (rotate faults (after_line line f)).1
      else after_line line f,
)

write_line-opened :
    (faults : Faults) (line : Text) (f : File)
    → f.handle ≡ opened
    → faults.written ≡ none
    → write_line faults line f ≡ if_full faults line f
unfolding write_line
write_line-opened faults line f h w =
    subst
      (λ hd.
        write_line faults line (record f { handle = hd })
        ≡ if_full faults line (record f { handle = hd }))
      (sym h)
      (subst
        (λ o.
          write_line (record faults { written = o }) line (record f { handle = opened })
          ≡ if_full (record faults { written = o }) line (record f { handle = opened }))
        (sym w) refl)

write_line-full :
    (faults : Faults) (line : Text) (f : File)
    → f.handle ≡ opened
    → faults.written ≡ none
    → leb_int f.max_bytes (pos (f.size + length line)) ≡ true
    → write_line faults line f ≡ (true, (rotate faults (after_line line f)).1)
unfolding write_line
write_line-full faults line f h w full =
    write_line-opened faults line f h w
    ∙ ap
        (λ (b : Bool).
          (true, if b then (rotate faults (after_line line f)).1 else after_line line f))
        full

publish_line-stale :
    (faults : Faults) (event : Option Text) (f : File)
    → f.handle ≡ stale
    → publish_line faults event f ≡ (false, f)
unfolding publish_line write_line
publish_line-stale faults none f h = refl
publish_line-stale faults (some body) f h =
    publish_line-direct faults body f stale h (λ e. cc e)
    ∙ write_line-stale faults (body ++ codes "\n") f h

publish_all-stale :
    (l : List (Faults × Option Text)) (f : File)
    → f.handle ≡ stale
    → publish_all l f ≡ (map (λ e. false) l, f)
unfolding publish_all
publish_all-stale [] f h = refl
publish_all-stale ((faults, event) ∷ l) f h =
    let first = publish_line-stale faults event f h in
    let after : publish_all l (publish_line faults event f).1 ≡ (map (λ e. false) l, f) =
      ap (λ r. publish_all l r.1) first ∙ publish_all-stale l f h in
    ap₂ (λ a b. (a.0 ∷ b.0, b.1)) first after

rotate-stale :
    (faults : Faults) (f : File)
    → f.handle ≡ opened
    → faults.reopen_fails ≡ true
    → (rotate faults f).1.handle ≡ stale
unfolding rotate open_file closed
rotate-stale faults f h r = ground arith

-- When a publication fills the file, and the file cannot be opened again after it was closed for
-- the rotation: that publication gives no error, and every later one gives an error and writes
-- nothing, whatever the disk does by then.
pub stale_after_rotate :
    (faults : Faults) (body : Text) (f : File) (l : List (Faults × Option Text))
    → f.handle ≡ opened
    → faults.written ≡ none
    → faults.reopen_fails ≡ true
    → leb_int f.max_bytes (pos (f.size + length (body ++ codes "\n"))) ≡ true
    → let (fine, g) = publish_line faults (some body) f in
      (fine ≡ true) × (publish_all l g ≡ (map (λ e. false) l, g))
stale_after_rotate faults body f l h w r full =
    let line = body ++ codes "\n" in
    let e =
      publish_line-direct faults body f opened h (λ q. cc q)
      ∙ write_line-full faults line f h w full in
    let left : (publish_line faults (some body) f).1.handle ≡ stale =
      ap (λ x. x.1.handle) e ∙ rotate-stale faults (after_line line f) h r in
    (ap (λ x. x.0) e, publish_all-stale l (publish_line faults (some body) f).1 left)
