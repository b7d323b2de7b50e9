-- ===== src/Configs/HttpOutput.antt =====
-- The configuration of the HTTP output: `HTTPOutputConfig` of configs/config.go.
use monitorbeat.Base.{
  ℕ, zero, suc, ◌*◌, ◌≤◌, ◌≡◌, ◌≢◌, refl, ap, ◌∙◌, Bool, true, Option, none, some, List, [], ◌∷◌,
  arith, if◌then◌else◌, if_both,
}
use monitorbeat.Base.Int.{ℤ, pos, negsuc, leb_int}
use monitorbeat.Base.Text.{Text, codes, text_eq}
use monitorbeat.Configs.Param.{second, or_default, or_default_idem, or_text, or_text_idem}

pub record HttpAuthConfig : Type 0 where
  pub kind : Text
  pub token : Text
  pub user : Text
  pub passwd : Text

pub record HttpOutputConfig : Type 0 where
  pub url : Text
  pub method : Text
  pub format : Text
  pub timeout : ℤ
  pub retry_max : ℤ
  pub headers : List (Text × Text)
  pub auth : HttpAuthConfig
  pub insecure_skip_verify : Bool
  pub fallback_path : Text
  pub fallback_max_size : ℤ
  pub fallback_max_backups : ℤ

unfoldable pub no_less_than_0 : ℤ → ℤ
no_less_than_0 (pos n) = pos n
no_less_than_0 (negsuc n) = pos 0

unfoldable pub default_method : Text → Text
default_method format = if text_eq format (codes "doris") then codes "PUT" else codes "POST"

-- What `Clean` fills in, behind the test of the URL.
unfoldable pub with_defaults : HttpOutputConfig → HttpOutputConfig
unfolding no_less_than_0 default_method or_text or_default
with_defaults c = record c {
  method = or_text (default_method c.format) c.method;
  format = or_text (codes "json") c.format;
  timeout = or_default (5 * second) c.timeout;
  retry_max = no_less_than_0 c.retry_max;
  fallback_max_size = or_default 50 c.fallback_max_size;
  fallback_max_backups = no_less_than_0 c.fallback_max_backups;
}

-- `Clean`; `none` is its error, that there is no URL.
unfoldable pub clean_http_output : HttpOutputConfig → Option HttpOutputConfig
unfolding with_defaults
clean_http_output c = elim c.url [ [] ↦ none | x ∷ s ↦ some (with_defaults c) ]

-- What the output relies on.
pub record IsUsable (c : HttpOutputConfig) : Type 0 where
  url : c.url ≢ []
  method : c.method ≢ []
  format : c.format ≢ []
  timeout : leb_int (pos 1) c.timeout ≡ true
  retry_max : leb_int (pos 0) c.retry_max ≡ true
  fallback_max_size : leb_int (pos 1) c.fallback_max_size ≡ true
  fallback_max_backups : leb_int (pos 0) c.fallback_max_backups ≡ true

or_default_positive : (d : ℕ) (n : ℤ) → 1 ≤ d → leb_int (pos 1) (or_default d n) ≡ true
unfolding or_default
or_default_positive d (pos zero) h = ground arith
or_default_positive d (pos (suc n)) h = ground arith
or_default_positive d (negsuc n) h = ground arith

no_less_than_0_lem : (n : ℤ) → leb_int (pos 0) (no_less_than_0 n) ≡ true
unfolding no_less_than_0
no_less_than_0_lem (pos n) = ground arith
no_less_than_0_lem (negsuc n) = refl

no_less_than_0_idem : (n : ℤ) → no_less_than_0 (no_less_than_0 n) ≡ no_less_than_0 n
unfolding no_less_than_0
no_less_than_0_idem (pos n) = refl
no_less_than_0_idem (negsuc n) = refl

or_text-filled : (d s : Text) → d ≢ [] → or_text d s ≢ []
unfolding or_text
or_text-filled d [] h = h
or_text-filled d (c ∷ s) h = λ e. cc e

default_method-filled : (format : Text) → default_method format ≢ []
unfolding default_method
default_method-filled format =
    if_both (λ m. m ≢ []) (text_eq format (codes "doris")) (λ e. cc e) (λ e. cc e)

or_text-again : (e d s : Text) → d ≢ [] → or_text e (or_text d s) ≡ or_text d s
unfolding or_text
or_text-again e [] [] h = absurd (h refl)
or_text-again e (c ∷ d) [] h = refl
or_text-again e d (c ∷ s) h = refl

method_twice :
    (format method : Text)
    → or_text
        (default_method (or_text (codes "json") format))
        (or_text (default_method format) method)
      ≡ or_text (default_method format) method
method_twice format method =
    or_text-again _ (default_method format) method (default_method-filled format)

with_url :
    (d : HttpOutputConfig) (url : Text)
    → url ≢ []
    → (elim url as (λ u. Option HttpOutputConfig) [ [] ↦ none | x ∷ s ↦ some d ]) ≡ some d
with_url d [] h = absurd (h refl)
with_url d (x ∷ s) h = refl

with_defaults_idem : (c : HttpOutputConfig) → with_defaults (with_defaults c) ≡ with_defaults c
unfolding with_defaults
with_defaults_idem c = simp (
  method_twice c.format c.method,
  or_text_idem (codes "json") c.format,
  or_default_idem (5 * second) c.timeout (omega arith),
  or_default_idem 50 c.fallback_max_size (omega arith),
  no_less_than_0_idem c.retry_max,
  no_less_than_0_idem c.fallback_max_backups,
)

with_defaults-IsUsable : (c : HttpOutputConfig) → c.url ≢ [] → IsUsable (with_defaults c)
unfolding with_defaults
with_defaults-IsUsable c h = record {
  url = h;
  method = or_text-filled (default_method c.format) c.method (default_method-filled c.format);
  format = or_text-filled (codes "json") c.format (λ e. cc e);
  timeout = or_default_positive (5 * second) c.timeout (omega arith);
  retry_max = no_less_than_0_lem c.retry_max;
  fallback_max_size = or_default_positive 50 c.fallback_max_size (omega arith);
  fallback_max_backups = no_less_than_0_lem c.fallback_max_backups;
}

-- `Clean` of a configuration with a URL gives no error. Afterwards there are a method and a format,
-- the timeout and the size of the fallback file are positive, the numbers of retries and of backups
-- are not negative, and cleaning again changes nothing.
pub clean_http_output_lem :
    (c : HttpOutputConfig)
    → c.url ≢ []
    → (cleaned : HttpOutputConfig) × (clean_http_output c ≡ some cleaned)
      × IsUsable cleaned
      × (clean_http_output cleaned ≡ some cleaned)
unfolding clean_http_output
clean_http_output_lem c h = (
  with_defaults c,
  with_url (with_defaults c) c.url h,
  with_defaults-IsUsable c h,
  with_url (with_defaults (with_defaults c)) (with_defaults c).url (with_defaults-IsUsable c h).url
      ∙ ap some (with_defaults_idem c),
)
