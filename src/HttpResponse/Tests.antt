-- ===== src/HttpResponse/Tests.antt =====
-- Runs of the response parser, and the theorems about it at concrete inputs.
use kangle.Prelude.{true, false, none, [], ◌∷◌, ◌≡◌, refl, arith, Bytes, codes, same, eq_bytes}
use kangle.HttpResponse.{FieldValue, Answer, cache_control, end_parse, end_age}
use kangle.HttpResponse.Names.{
  switch_cases, switch, first_same, all_names, kgl_parse_response_header,
  kgl_parse_response_header-all, SameFirst, HeaderType,
}
use kangle.HttpResponse.CacheControl.{cache_control-forbids}
use kangle.HttpResponse.Age.{Ages, end_parse-Ages}

-- A field is its text, and has no number.
abbrev texts : FieldValue Bytes
unfolding eq_bytes
texts = record { is = λ f name. eq_bytes f name; is_int = λ f name. none }

abbrev answer : Answer
answer = record {
  no_cache = false;
  has_max_age = false;
  has_expires = true;
  has_content_range = false;
  has_content_length = false;
  must_revalidate = false;
  is_static = false;
  dead = false;
  has_etag = true;
  content_length = 0;
  max_age = 0;
  last_modified = 0;
  last_verified = 1000;
  server_date = 990;
  expire_date = 1050;
  age = 20;
  has_s_maxage = false;
  cache_control_no_cache = false;
}

age_run : (end_parse 1000 999000 none answer).age ≡ 21
unfolding end_parse end_age
age_run = refl

end_parse-Ages_example : Ages 1000 answer (end_parse 1000 999000 none answer)
unfolding end_parse end_age
end_parse-Ages_example = end_parse-Ages 1000 999000 none answer refl refl refl

cache_control-forbids_example :
    (cache_control texts 1000
      (codes "public" ∷ [])
      (cache_control texts 1000 (codes "no-store" ∷ codes "public" ∷ []) answer)).no_cache
    ≡ true
unfolding eq_bytes
cache_control-forbids_example =
    cache_control-forbids texts 1000 (codes "no-store" ∷ codes "public" ∷ []) (codes "public" ∷ [])
      answer refl refl (refl, (refl, tt)) (refl, tt)

same-SameFirst : SameFirst same
unfolding same
same-SameFirst c cs [] h = absurd (ground arith)
same-SameFirst c cs (d ∷ ds) h = ground arith

header_run : kgl_parse_response_header same (codes "cache-control") ≡ HeaderType.cache_control
unfolding kgl_parse_response_header switch first_same same
header_run = refl

kgl_parse_response_header-all_example :
    kgl_parse_response_header same (b'E' ∷ codes "TAG")
    ≡ first_same same (b'E' ∷ codes "TAG") (all_names same switch_cases)
kgl_parse_response_header-all_example =
    kgl_parse_response_header-all same same-SameFirst b'E' (codes "TAG")
