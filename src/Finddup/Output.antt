-- ===== src/Finddup/Output.antt =====
-- What `scan3` of hw2/src/finddup.c prints.
use c_starter_projects.Prelude.{
  ℕ, ◌≡◌, refl, ap, ◌∙◌, Bool, true, false, not, ◌&&◌, ◌||◌, Option, none, some, List, [], ◌∷◌,
  ◌++◌, if◌then◌else◌,
}
use c_starter_projects.Finddup.Contents.{Filedesc}
use c_starter_projects.Finddup.Scans.{
  Line, zero_length_header, link_header, dup_header, plain, file_line, link_line, dup_line,
  head_lines, scan3,
}

-- The names on the lines for duplicates.
abbrev pub duplicates_in : List Line → List ℕ
duplicates_in [] = []
duplicates_in (dup_line name ∷ rest) = name ∷ duplicates_in rest
duplicates_in (zero_length_header ∷ rest) = duplicates_in rest
duplicates_in (link_header ∷ rest) = duplicates_in rest
duplicates_in (dup_header ∷ rest) = duplicates_in rest
duplicates_in (plain name ∷ rest) = duplicates_in rest
duplicates_in (file_line name ∷ rest) = duplicates_in rest
duplicates_in (link_line name ∷ rest) = duplicates_in rest

-- The files that are printed as duplicates: links only if they are wanted.
abbrev pub listed : (linkflag : Bool) → List Filedesc → List ℕ
listed linkflag [] = []
listed linkflag (p ∷ rest) =
    if p.is_dup && (linkflag || not p.is_link)
    then p.nameloc ∷ listed linkflag rest
    else listed linkflag rest

headers_hidden :
    (need_hdr : Bool) (head : Option ℕ) (name : ℕ) (rest : List Line)
    → duplicates_in
        ((if need_hdr then dup_header ∷ [] else []) ++ head_lines head ++ dup_line name ∷ rest)
      ≡ name ∷ duplicates_in rest
headers_hidden true none name rest = refl
headers_hidden true (some h) name rest = refl
headers_hidden false none name rest = refl
headers_hidden false (some h) name rest = refl

printed :
    (dup wanted : Bool) (xs ys zs : List Line) (name : ℕ) (names : List ℕ)
    → duplicates_in xs ≡ name ∷ names
    → duplicates_in ys ≡ names
    → duplicates_in zs ≡ names
    → duplicates_in (if dup then if wanted then xs else ys else zs)
      ≡ (if dup && wanted then name ∷ names else names)
printed true true xs ys zs name names p q r = p
printed true false xs ys zs name names p q r = q
printed false wanted xs ys zs name names p q r = r

-- `scan3` prints, in their order, the files that are flagged as duplicates, without the links when
-- links are not wanted.
pub scan3_lem :
    (linkflag need_hdr inmatch : Bool) (headfn : Option ℕ) (prev : ℕ) (files : List Filedesc)
    → duplicates_in (scan3 linkflag need_hdr inmatch headfn prev files) ≡ listed linkflag files
unfolding scan3
scan3_lem linkflag need_hdr inmatch headfn prev [] = refl
scan3_lem linkflag need_hdr inmatch headfn prev (p ∷ rest) =
    let matching = inmatch && not (p.has_crc && not p.is_dup && not p.is_link) in
    let head = if matching then headfn else some prev in
    let shown = scan3 linkflag false true none p.nameloc rest in
    let silent = scan3 linkflag need_hdr true head p.nameloc rest in
    let passed = scan3 linkflag need_hdr matching headfn p.nameloc rest in
    printed p.is_dup (linkflag || not p.is_link)
      ((if need_hdr then dup_header ∷ [] else []) ++ head_lines head ++ dup_line p.nameloc ∷ shown)
      silent passed p.nameloc (listed linkflag rest)
      (headers_hidden need_hdr head p.nameloc shown
        ∙ ap (λ ns. p.nameloc ∷ ns) (scan3_lem linkflag false true none p.nameloc rest))
      (scan3_lem linkflag need_hdr true head p.nameloc rest)
      (scan3_lem linkflag need_hdr matching headfn p.nameloc rest)
