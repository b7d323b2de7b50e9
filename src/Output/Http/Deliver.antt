-- ===== src/Output/Http/Deliver.antt =====
-- What a publication does with its payload.
use monitorbeat.Base.{
  ℕ, zero, suc, ◌+◌, ◌<◌, ◌≡◌, ◌⊎◌, sym, subst, refl, Bool, true, false, none, some, [], ◌++◌, ◌&&◌,
  Bool-cases, inl, inr, arith, ltb, length, if◌then◌else◌,
}
use monitorbeat.Base.Text.{Text, codes, text_eq}
use monitorbeat.Output.Disk.{Disk, content, open_append, append}
use monitorbeat.Output.Http.{
  Config, Output, Faults, HttpRequest, request, is_success, try_from, attempts, try_send, is_full,
  rotate_fallback, write_open, write_fallback, publish,
}
use monitorbeat.Output.Http.Rotate.{NoRenameFails, rotate_fallback-first}

-- An attempt that is made is answered by a status from 200 to 299.
abbrev pub IsAccepted : Config → Faults → Text → Text → Type 0
IsAccepted cfg faults body content_type =
    (n : ℕ) × (n < attempts cfg.retry_max)
    × (is_success (faults.answer n (request cfg body content_type)) ≡ true)

try_from_accepted :
    (faults : Faults) (r : HttpRequest) (n attempt : ℕ)
    → try_from faults r n attempt ≡ true
    → (k : ℕ) × (k < attempt + n) × (is_success (faults.answer k r) ≡ true)
unfolding try_from
try_from_accepted faults r zero attempt h = cc h
try_from_accepted faults r (suc n) attempt h =
    elim (Bool-cases (ltb 0 attempt && faults.cancelled attempt)) [
      | inl c ↦ absurd (ground arith)
      | inr c ↦ elim (Bool-cases (is_success (faults.answer attempt r))) [
        | inl s ↦ (attempt, omega arith, s)
        | inr s ↦
            let (k, below, good) = try_from_accepted faults r n (suc attempt) (ground arith) in
            (k, omega arith, good)
      ]
    ]

try_send-IsAccepted :
    (cfg : Config) (faults : Faults) (body content_type : Text)
    → try_send cfg faults body content_type ≡ true
    → IsAccepted cfg faults body content_type
unfolding try_send
try_send-IsAccepted cfg faults body content_type h =
    let (k, below, good) =
      try_from_accepted faults (request cfg body content_type) (attempts cfg.retry_max) 0 h in
    (k, omega arith, good)

-- The text is all of the file, or all of its first backup.
abbrev pub IsStored : Text → Disk → Type 0
IsStored t d = (d 0 ≡ some t) ⊎ (d 1 ≡ some t)

abbrev after_write : Text → Output → Output
after_write body h = record h {
  disk = append (body ++ codes "\n") h.disk;
  fb_size = h.fb_size + length (body ++ codes "\n");
}

write_open-none :
    (cfg : Config) (faults : Faults) (body : Text) (h : Output)
    → faults.written ≡ none
    → write_open cfg faults body h ≡ (
        if is_full cfg (after_write body h).fb_size
        then rotate_fallback cfg faults (after_write body h)
        else (true, after_write body h))
unfolding write_open
write_open-none cfg faults body h e = rw (e, write_open) refl

-- No error is given, and the text is stored.
abbrev IsKept : Text → Bool × Output → Type 0
IsKept t r = (r.0 ≡ true) × IsStored t r.1.disk

if_IsKept :
    (cfg : Config) (faults : Faults) (body : Text) (h : Output)
    → NoRenameFails faults
    → (full : Bool)
    → IsKept (content (h.disk 0) ++ (body ++ codes "\n")) (
        if full
        then rotate_fallback cfg faults (after_write body h)
        else (true, after_write body h))
unfolding append
if_IsKept cfg faults body h w true =
    let (fine, kept) =
      rotate_fallback-first cfg faults (after_write body h)
        (content (h.disk 0) ++ (body ++ codes "\n")) w refl in
    (fine, inr kept)
if_IsKept cfg faults body h w false = (refl, inl refl)

write_open-IsStored :
    (cfg : Config) (faults : Faults) (body : Text) (h : Output)
    → faults.written ≡ none
    → NoRenameFails faults
    → ((write_open cfg faults body h).0 ≡ true)
      × IsStored (content (h.disk 0) ++ (body ++ codes "\n")) (write_open cfg faults body h).1.disk
write_open-IsStored cfg faults body h e w =
    subst (IsKept (content (h.disk 0) ++ (body ++ codes "\n")))
      (sym (write_open-none cfg faults body h e))
      (if_IsKept cfg faults body h w (is_full cfg (after_write body h).fb_size))

write_fallback-IsStored :
    (cfg : Config) (faults : Faults) (body : Text) (h : Output)
    → text_eq cfg.fallback_path [] ≡ false
    → faults.open_fails ≡ false
    → faults.stat_fails ≡ false
    → faults.written ≡ none
    → NoRenameFails faults
    → ((write_fallback cfg faults body h).0 ≡ true)
      × IsStored
          (content (h.disk 0) ++ (body ++ codes "\n"))
          (write_fallback cfg faults body h).1.disk
unfolding write_fallback open_append
write_fallback-IsStored cfg faults body h p o s e w = elim (Bool-cases h.is_open) [
  | inl i ↦ simp (p, i) (write_open-IsStored cfg faults body h e w)
  | inr i ↦
      simp (p, i, o, s)
        (write_open-IsStored cfg faults body
          (record h {
            is_open = true;
            fb_size = length (content (h.disk 0));
            disk = open_append h.disk;
          })
          e w)
]

publish-sent :
    (cfg : Config) (faults : Faults) (body content_type : Text) (h : Output)
    → h.closed ≡ false
    → publish cfg faults (some (body, content_type)) h ≡ (
        if try_send cfg faults body content_type
        then (true, h)
        else write_fallback cfg faults body h)
unfolding publish
publish-sent cfg faults body content_type h c = rw (c, publish) refl

-- From an output that is not closed and has a fallback path, where the disk does not fail: a
-- publication gives no error; either the server accepted the payload at one of the allowed
-- attempts, and nothing else changes, or the payload is a line at the end of the fallback file,
-- which a rotation may have made the first backup.
pub publish_lem :
    (cfg : Config) (faults : Faults) (body content_type : Text) (h : Output)
    → h.closed ≡ false
    → text_eq cfg.fallback_path [] ≡ false
    → faults.open_fails ≡ false
    → faults.stat_fails ≡ false
    → faults.written ≡ none
    → NoRenameFails faults
    → let (fine, after) = publish cfg faults (some (body, content_type)) h in
      (fine ≡ true)
      × ((IsAccepted cfg faults body content_type × (after ≡ h))
          ⊎ IsStored (content (h.disk 0) ++ (body ++ codes "\n")) after.disk)
publish_lem cfg faults body content_type h c p o s e w =
    subst
      (λ r.
        (r.0 ≡ true)
        × ((IsAccepted cfg faults body content_type × (r.1 ≡ h))
            ⊎ IsStored (content (h.disk 0) ++ (body ++ codes "\n")) r.1.disk))
      (sym (publish-sent cfg faults body content_type h c))
      (elim (Bool-cases (try_send cfg faults body content_type)) [
        | inl a ↦ simp a (refl, inl (try_send-IsAccepted cfg faults body content_type a, refl))
        | inr a ↦
            let (fine, stored) = write_fallback-IsStored cfg faults body h p o s e w in
            simp a (fine, inr stored)
      ])
