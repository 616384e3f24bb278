-- ===== src/HttpResponse/CacheControl.antt =====
-- src/KHttpResponseParser.cpp: a Cache-Control that forbids the storage prevails.
use kangle.Prelude.{
  ℕ, Bool, true, false, not, ◌&&◌, ◌||◌, Option, none, some, List, [], ◌∷◌, ◌≡◌, refl, arith,
  if◌then◌else◌, Bool-cases, inl, inr, codes, if_cases, if_true, if_false,
}
use kangle.Prelude.Int.{ℤ}
use kangle.HttpResponse.{
  FieldValue, Answer, cache_control, cache_control_field, force_cache, forbids, forbid, allow,
  or_max_age, or_s_maxage, or_revalidate, set_max_age, positive_age,
}

module _ {F : Type 0} (api : FieldValue F) where
  open api use {is, is_int}

  abbrev pub any_forbids : List F → Bool
  any_forbids [] = false
  any_forbids (f ∷ fs) = forbids api f || any_forbids fs

  abbrev pub NoStatic : List F → Type 0
  NoStatic [] = Unit {0}
  NoStatic (f ∷ fs) = (is f (codes "static") ≡ false) × NoStatic fs

  -- A storage that was forbidden is so still, and the answer is not forced into the cache.
  abbrev pub IsForbidden : Answer → Type 0
  IsForbidden s = (s.is_static ≡ false) × (s.cache_control_no_cache ≡ true) × (s.no_cache ≡ true)

  or_revalidate-Forbidden :
      (f : F) (s : Answer) → IsForbidden s → IsForbidden (or_revalidate api f s)
  or_revalidate-Forbidden f s h = if_cases IsForbidden (is f (codes "must-revalidate")) _ s h h

  or_s_maxage-Forbidden :
      (f : F) (o : Option ℤ) (s : Answer) → IsForbidden s → IsForbidden (or_s_maxage api f o s)
  or_s_maxage-Forbidden f none s h = or_revalidate-Forbidden f s h
  or_s_maxage-Forbidden f (some n) s h = h

  or_max_age-Forbidden :
      (f : F) (o : Option ℤ) (s : Answer) → IsForbidden s → IsForbidden (or_max_age api f o s)
  or_max_age-Forbidden f none s h = or_s_maxage-Forbidden f (is_int f (codes "s-maxage=")) s h
  or_max_age-Forbidden f (some n) s h =
      if_cases IsForbidden s.has_s_maxage s (set_max_age (positive_age n) s) h h

  allow-Forbidden :
      (now : ℕ) (f : F) (s : Answer)
      → is f (codes "static") ≡ false
      → IsForbidden s
      → IsForbidden (allow api now f s)
  unfolding force_cache
  allow-Forbidden now f s plain h =
      if_false IsForbidden (is f (codes "static")) (force_cache now s)
        (if is f (codes "public")
          then (if s.cache_control_no_cache then s else record s { no_cache = false })
          else or_max_age api f (is_int f (codes "max-age=")) s)
        plain
        (if_cases IsForbidden (is f (codes "public"))
          (if s.cache_control_no_cache then s else record s { no_cache = false })
          (or_max_age api f (is_int f (codes "max-age=")) s)
          (if_true IsForbidden s.cache_control_no_cache s (record s { no_cache = false }) h.1 h)
          (or_max_age-Forbidden f (is_int f (codes "max-age=")) s h))

  forbid-Forbidden : (f : F) (s : Answer) → IsForbidden s → IsForbidden (forbid api f s)
  forbid-Forbidden f s h =
      if_cases IsForbidden (not s.is_static && forbids api f)
        (record s { cache_control_no_cache = true; no_cache = true }) s (h.0, refl, refl) h

  cache_control-Forbidden :
      (now : ℕ) (fs : List F) (s : Answer)
      → NoStatic fs
      → IsForbidden s
      → IsForbidden (cache_control api now fs s)
  unfolding cache_control cache_control_field force_cache
  cache_control-Forbidden now [] s plain h = h
  cache_control-Forbidden now (f ∷ fs) s plain h =
      cache_control-Forbidden now fs (allow api now f (forbid api f s)) plain.1
        (allow-Forbidden now f (forbid api f s) plain.0 (forbid-Forbidden f s h))

  -- The answer is not forced into the cache.
  abbrev IsPlain : Answer → Type 0
  IsPlain s = s.is_static ≡ false

  or_s_maxage-IsPlain :
      (f : F) (o : Option ℤ) (s : Answer) → IsPlain s → IsPlain (or_s_maxage api f o s)
  or_s_maxage-IsPlain f none s h =
      if_cases IsPlain (is f (codes "must-revalidate")) (record s { must_revalidate = true }) s h h
  or_s_maxage-IsPlain f (some n) s h = h

  or_max_age-IsPlain :
      (f : F) (o : Option ℤ) (s : Answer) → IsPlain s → IsPlain (or_max_age api f o s)
  or_max_age-IsPlain f none s h = or_s_maxage-IsPlain f (is_int f (codes "s-maxage=")) s h
  or_max_age-IsPlain f (some n) s h =
      if_cases IsPlain s.has_s_maxage s (set_max_age (positive_age n) s) h h

  allow-IsPlain :
      (now : ℕ) (f : F) (s : Answer)
      → is f (codes "static") ≡ false
      → IsPlain s
      → IsPlain (allow api now f s)
  unfolding force_cache
  allow-IsPlain now f s plain h =
      if_false IsPlain (is f (codes "static")) (force_cache now s)
        (if is f (codes "public")
          then (if s.cache_control_no_cache then s else record s { no_cache = false })
          else or_max_age api f (is_int f (codes "max-age=")) s)
        plain
        (if_cases IsPlain (is f (codes "public"))
          (if s.cache_control_no_cache then s else record s { no_cache = false })
          (or_max_age api f (is_int f (codes "max-age=")) s)
          (if_cases IsPlain s.cache_control_no_cache s (record s { no_cache = false }) h h)
          (or_max_age-IsPlain f (is_int f (codes "max-age=")) s h))

  -- An answer that is not forced into the cache is not to be stored after a Cache-Control with
  -- no-store, no-cache or private among its fields, whatever stands in front of it or follows
  -- it, public included; nor after any further Cache-Control. No field is "static", which forces it.
  pub cache_control-forbids :
      (now : ℕ) (fs more : List F) (s : Answer)
      → s.is_static ≡ false
      → any_forbids fs ≡ true
      → NoStatic fs
      → NoStatic more
      → (cache_control api now more (cache_control api now fs s)).no_cache ≡ true
  unfolding cache_control cache_control_field force_cache
  cache_control-forbids now [] more s plain some_field no_static no_more = absurd (ground arith)
  cache_control-forbids now (f ∷ fs) more s plain some_field no_static no_more =
      elim (Bool-cases (forbids api f)) [
        | inr other ↦
            let first = forbid api f s in
            let kept : IsPlain first =
              if_cases IsPlain (not s.is_static && forbids api f)
                (record s { cache_control_no_cache = true; no_cache = true }) s plain plain in
            cache_control-forbids now fs more (allow api now f first)
              (allow-IsPlain now f first no_static.0 kept) (ground arith) no_static.1 no_more
        | inl this_one ↦
            let first : IsForbidden (forbid api f s) =
              if_true IsForbidden (not s.is_static && forbids api f)
                (record s { cache_control_no_cache = true; no_cache = true }) s (ground arith)
                (plain, refl, refl) in
            let then_on = allow-Forbidden now f (forbid api f s) no_static.0 first in
            let all =
              cache_control-Forbidden now fs (allow api now f (forbid api f s)) no_static.1
                then_on in
            (cache_control-Forbidden now more
              (cache_control api now fs (allow api now f (forbid api f s))) no_more all).2
      ]
