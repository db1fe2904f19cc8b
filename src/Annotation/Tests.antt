-- ===== src/Annotation/Tests.antt =====
-- Annotations of mprofile/record.c, and the theorems at them.
use ossl_scripts.Base.{[], some, ◌∷◌, ◌≡◌, arith, take, replicate}
use ossl_scripts.Annotation.{get_annotation, backslash}
use ossl_scripts.Annotation.Escape.{get_annotation-quote}

-- the annotation a"b comes out as a and backslashes
get_annotation-quote_example :
    get_annotation (some (97 ∷ 34 ∷ 98 ∷ [])) ≡ take 511 (97 ∷ replicate 511 backslash)
get_annotation-quote_example = get_annotation-quote (97 ∷ []) (98 ∷ []) (ground arith)
