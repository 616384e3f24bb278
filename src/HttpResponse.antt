-- ===== src/HttpResponse.antt =====
-- include/KHttpResponseParser.h, src/KHttpResponseParser.cpp: what the headers of an answer say of its
-- storage. `Answer` is the part of the KHttpObject and of the parser that these functions change, one
-- Boolean for each flag. A time is a number of seconds from 1970 on; an `unsigned` and a uint32_t
-- have 32 bits. KHttpFieldValue, which cuts a value into fields, is not in the repository: the
-- record FieldValue is what the code asks of it.
pub mod Names
pub mod CacheControl
pub mod Age
mod Tests
use kangle.Prelude.{
  ℕ, zero, suc, ◌+◌, ◌-◌, ◌*◌, ◌/◌, ◌%◌, ◌≤◌, ◌<◌, min, max, Bool, true, false, not, ◌&&◌, ◌||◌,
  Option, none, some, List, [], ◌∷◌, ltb, leb, ◌==◌, if◌then◌else◌, Bytes, codes, same,
}
use kangle.Prelude.Int.{ℤ, pos, negsuc}

pub record FieldValue (F : Type 0) : Type 0 where
  pub is : F → Bytes → Bool
  -- is(name, &n): the number behind the name.
  pub is_int : F → Bytes → Option ℤ

pub record Answer : Type 0 where
  -- ANSW_NO_CACHE, ANSW_HAS_MAX_AGE, ANSW_HAS_EXPIRES, ANSW_HAS_CONTENT_RANGE,
  -- ANSW_HAS_CONTENT_LENGTH, OBJ_MUST_REVALIDATE, OBJ_IS_STATIC2, FLAG_DEAD
  pub no_cache : Bool
  pub has_max_age : Bool
  pub has_expires : Bool
  pub has_content_range : Bool
  pub has_content_length : Bool
  pub must_revalidate : Bool
  pub is_static : Bool
  pub dead : Bool
  pub has_etag : Bool
  pub content_length : ℕ
  pub max_age : ℕ
  pub last_modified : ℕ
  pub last_verified : ℕ
  pub server_date : ℕ
  pub expire_date : ℕ
  pub age : ℕ
  pub has_s_maxage : Bool
  pub cache_control_no_cache : Bool

abbrev pub uint_max : ℕ
uint_max = 4294967295

-- force_cache(true) of KHttpObject, at time `now`; set_last_modified leaves a last-modified time
-- in place of an etag.
pub force_cache : ℕ → Answer → Answer
force_cache now s = if s.dead then s else record s {
  no_cache = false;
  must_revalidate = false;
  last_modified = now;
  has_etag = true;
  is_static = true;
}

-- `parsed_max_age > 0 ? (uint32_t)parsed_max_age : 0`
abbrev pub positive_age : ℤ → ℕ
positive_age (pos n) = n
positive_age (negsuc n) = 0

abbrev pub set_max_age : ℕ → Answer → Answer
set_max_age n s = record s { max_age = n; has_max_age = true }

module _ {F : Type 0} (api : FieldValue F) where
  open api use {is, is_int}

  -- The first tests of a field of Cache-Control.
  abbrev pub forbids : F → Bool
  forbids f = is f (codes "no-store") || (is f (codes "no-cache") || is f (codes "private"))

  abbrev pub forbid : F → Answer → Answer
  forbid f s =
      if not s.is_static && forbids f
      then record s { cache_control_no_cache = true; no_cache = true }
      else s

  abbrev pub or_revalidate : F → Answer → Answer
  or_revalidate f s =
      if is f (codes "must-revalidate") then record s { must_revalidate = true } else s

  abbrev pub or_s_maxage : F → Option ℤ → Answer → Answer
  or_s_maxage f none s = or_revalidate f s
  or_s_maxage f (some n) s = set_max_age (positive_age n) (record s { has_s_maxage = true })

  abbrev pub or_max_age : F → Option ℤ → Answer → Answer
  or_max_age f none s = or_s_maxage f (is_int f (codes "s-maxage=")) s
  or_max_age f (some n) s = if s.has_s_maxage then s else set_max_age (positive_age n) s

  abbrev pub allow : ℕ → F → Answer → Answer
  unfolding force_cache
  allow now f s =
      if is f (codes "static")
      then force_cache now s
      else if is f (codes "public")
      then (if s.cache_control_no_cache then s else record s { no_cache = false })
      else or_max_age f (is_int f (codes "max-age=")) s

  -- One round of the loop over the fields of Cache-Control.
  pub cache_control_field : ℕ → F → Answer → Answer
  unfolding force_cache
  cache_control_field now f s = allow now f (forbid f s)

  -- The case kgl_header_cache_control of parse_header.
  pub cache_control : ℕ → List F → Answer → Answer
  unfolding cache_control_field
  cache_control now [] s = s
  cache_control now (f ∷ fs) s = cache_control now fs (cache_control_field now f s)

  -- The case kgl_header_pragma.
  pub pragma : List F → Answer → Answer
  pragma [] s = s
  pragma (f ∷ fs) s =
      let rest = pragma fs s in
      if is f (codes "no-cache") then record s { no_cache = true } else rest

-- The case kgl_header_set_cookie.
abbrev pub set_cookie : Answer → Answer
set_cookie s = if s.is_static then s else record s { no_cache = true }

-- The case kgl_header_expires, with the time that kgl_parse_value_time finds.
abbrev pub parsed_or_past : Option ℕ → ℕ
parsed_or_past none = 0
parsed_or_past (some t) = t

pub expires : Option ℕ → Answer → Answer
expires t s =
    if s.has_expires then s else record s { expire_date = parsed_or_past t; has_expires = true }

-- end_parse. `body_size` is none if it is negative; `now` is kgl_current_sec, and `begin_msec` the
-- time in milliseconds at which the request began.
abbrev pub with_size : Option ℕ → Answer → Answer
with_size none s = s
with_size (some n) s = record s { has_content_length = true; content_length = n }

abbrev pub without_validator : Answer → Answer
without_validator s =
    if not s.has_etag && not (s.has_max_age || s.has_expires)
    then record s { no_cache = true }
    else s

abbrev pub server_time : ℕ → Answer → ℕ
server_time now s = if s.server_date == 0 then now else s.server_date

-- The `unsigned` difference wraps; the sum has 64 bits.
abbrev pub calculated_age : ℕ → ℕ → Answer → ℕ
calculated_age now begin_msec s =
    max (if ltb (server_time now s) now then (now - server_time now s) % 4294967296 else 0) s.age
    + (now - begin_msec / 1000)

pub end_age : ℕ → ℕ → Answer → Answer
end_age now begin_msec s =
    let date = server_time now s in
    let age = min (calculated_age now begin_msec s) uint_max in
    let max_age =
      if not s.has_max_age && s.has_expires
      then min (s.expire_date - date) uint_max
      else s.max_age in
    let last_verified =
      if ltb 0 age && not s.has_content_range
      then (if leb now age then 0 else now - age)
      else s.last_verified in
    record s { server_date = date; age = age; max_age = max_age; last_verified = last_verified }

unfoldable pub end_parse : ℕ → ℕ → Option ℕ → Answer → Answer
unfolding end_age
end_parse now begin_msec body_size s =
    let checked = without_validator (with_size body_size s) in
    if checked.no_cache then checked else end_age now begin_msec checked

-- get_current_age of KHttpObject.
pub current_age : Answer → ℕ → ℕ
current_age s now = if leb now s.last_verified then 0 else min (now - s.last_verified) uint_max
