-- ===== src/Parsers/Patterns.antt =====
-- The patterns of backend/app/parsers/regex_parser.py.
use price_checker.Base.{List, [], ◌∷◌, codes}
use price_checker.Regex.{
  Regex, nothing, one, star, seq, group, literal, decimal, space, any_of, other_than, plus, opt,
  word, words,
}
use price_checker.Parsers.Units.{mass_volume_words, count_words}

abbrev pub seqs : List Regex → Regex
seqs [] = nothing
seqs (p ∷ []) = p
seqs (p ∷ q ∷ rest) = seq p (seqs (q ∷ rest))

-- `\s*`, `\d+`, `\d+(?:\.\d+)?`, `[x×X]`
abbrev pub spaces : Regex
spaces = star space

abbrev pub digits : Regex
digits = plus decimal

abbrev pub amount : Regex
amount = seq digits (opt (seq (one (literal b'.')) digits))

abbrev pub times_sign : Regex
times_sign = one (any_of (codes "x×X"))

abbrev pub mass_volume : Regex
mass_volume = words mass_volume_words

abbrev pub count_unit : Regex
count_unit = words count_words

abbrev pub total_explicit : Regex
total_explicit = seqs (
    word (codes "총")
    ∷ spaces
    ∷ group 1 digits
    ∷ spaces
    ∷ group 2 (words (codes "개입" ∷ codes "개" ∷ codes "팩" ∷ []))
    ∷ [])

abbrev pub parenthesis_detail : Regex
parenthesis_detail = seqs (
    group 1 amount
    ∷ spaces
    ∷ group 2 mass_volume
    ∷ spaces
    ∷ one (literal b'(')
    ∷ spaces
    ∷ plus (other_than b')')
    ∷ one (literal b')')
    ∷ [])

abbrev pub n_by_m_with_total : Regex
n_by_m_with_total = seqs (
    group 1 digits
    ∷ spaces
    ∷ group 2 count_unit
    ∷ spaces
    ∷ times_sign
    ∷ spaces
    ∷ group 3 digits
    ∷ spaces
    ∷ group 4 count_unit
    ∷ opt (
        seqs (
          spaces
          ∷ opt (one (literal b'('))
          ∷ spaces
          ∷ word (codes "총")
          ∷ spaces
          ∷ group 5 digits
          ∷ spaces
          ∷ group 6 count_unit
          ∷ spaces
          ∷ opt (one (literal b')'))
          ∷ []))
    ∷ [])

abbrev pub volume_x_count : Regex
volume_x_count = seqs (
    group 1 amount
    ∷ spaces
    ∷ group 2 mass_volume
    ∷ spaces
    ∷ times_sign
    ∷ spaces
    ∷ group 3 digits
    ∷ spaces
    ∷ opt (group 4 count_unit)
    ∷ [])

abbrev pub volume_space_count : Regex
volume_space_count = seqs (
    group 1 amount
    ∷ spaces
    ∷ group 2 mass_volume
    ∷ plus space
    ∷ group 3 digits
    ∷ spaces
    ∷ group 4 count_unit
    ∷ [])

abbrev pub simple_count : Regex
simple_count = seqs (group 1 digits ∷ spaces ∷ group 2 count_unit ∷ [])

abbrev pub bonus_combo : Regex
bonus_combo = seqs (
    group 1 digits
    ∷ spaces
    ∷ group 2 count_unit
    ∷ spaces
    ∷ one (literal b'+')
    ∷ spaces
    ∷ opt (words (codes "펌프" ∷ codes "증정" ∷ codes "추가" ∷ codes "사은품" ∷ codes "선물" ∷ []))
    ∷ spaces
    ∷ group 3 digits
    ∷ spaces
    ∷ opt (group 4 count_unit)
    ∷ [])

abbrev pub comma_combo : Regex
comma_combo = seqs (
    group 1 amount
    ∷ spaces
    ∷ group 2 mass_volume
    ∷ spaces
    ∷ one (literal b',')
    ∷ spaces
    ∷ group 3 digits
    ∷ spaces
    ∷ group 4 count_unit
    ∷ [])
