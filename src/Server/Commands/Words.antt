-- ===== src/Server/Commands/Words.antt =====
-- The arguments that `command_line` of core/devices/ZejfMeteo/src/zejf_meteo.c takes from a line, against
-- the words that the line is made of.
use mathlib.Core.List.{append_assoc}
use zejf_meteo.Common.{
  ℕ, suc, ◌+◌, ◌==◌, ◌<◌, ◌≡◌, refl, ap, ◌∙◌, inl, inr, false, Option, none, some, List, [], ◌∷◌,
  ◌++◌, map, ltb, if◌then◌else◌, length, length-append, arith, All, Bool-cases, Option-cases,
  ==_self, ltb→lt, ltb→le, ==_ne, le→ltb, lt→ltb,
}
use zejf_meteo.Server.{newline_char}
use zejf_meteo.Server.Lines.Split.{drop_line}
use zejf_meteo.Server.Commands.{
  command_args_max, space, is_separator, c_string, next_argc, argument_byte, split_loop, string_at,
  command_arguments,
}

-- A byte of a word neither separates words nor ends a string.
abbrev pub IsLetter : ℕ → Type 0
IsLetter b = (is_separator b ≡ false) × ((b == 0) ≡ false)

abbrev pub IsWord : List ℕ → Type 0
IsWord = All IsLetter

-- The words behind the first, each after a space, and the end of the line.
unfoldable pub tail_of_line : List (List ℕ) → List ℕ
tail_of_line [] = newline_char ∷ []
tail_of_line (w ∷ ws) = space ∷ (w ++ tail_of_line ws)

-- The same with the separators overwritten.
unfoldable blanked : List (List ℕ) → List ℕ
blanked [] = 0 ∷ []
blanked (w ∷ ws) = 0 ∷ (w ++ blanked ws)

-- The places of the words, the first separator at `i`.
unfoldable places : (i : ℕ) → List (List ℕ) → List ℕ
places i [] = []
places i (w ∷ ws) = suc i ∷ places (suc i + length w) ws

-- A word in front of what is left.
abbrev onto : List ℕ → List ℕ × List ℕ → List ℕ × List ℕ
onto w (line, argv) = (w ++ line, argv)

unfoldable onto_all : List ℕ → Option (List ℕ × List ℕ) → Option (List ℕ × List ℕ)
onto_all w none = none
onto_all w (some r) = some (onto w r)

next_argc-letter : (b argc : ℕ) (bs : List ℕ) → is_separator b ≡ false → next_argc b argc bs ≡ argc
unfolding next_argc
next_argc-letter b argc [] e = refl
next_argc-letter b argc (b' ∷ bs) e = rw e refl

next_argc-space :
    (argc : ℕ) (w : List ℕ) (ws : List (List ℕ))
    → next_argc space argc (w ++ tail_of_line ws) ≡ suc argc
unfolding next_argc tail_of_line
next_argc-space argc [] [] = refl
next_argc-space argc [] (w ∷ ws) = refl
next_argc-space argc (b ∷ bs) ws = refl

split_loop-letter :
    (i argc b : ℕ) (bs : List ℕ)
    → IsLetter b
    → argc < command_args_max
    → split_loop i argc (b ∷ bs) ≡ onto_all (b ∷ []) (split_loop (suc i) argc bs)
unfolding split_loop argument_byte onto_all
split_loop-letter i argc b bs l h = elim (Option-cases (split_loop (suc i) argc bs)) [
  | inl e ↦ rw (next_argc-letter b argc bs l.0, lt→ltb argc command_args_max h, e) refl
  | inr ((line, argv), e) ↦
      rw (next_argc-letter b argc bs l.0, lt→ltb argc command_args_max h, e)
        (rw (next_argc-letter b argc bs l.0, argument_byte, l.0, ==_self argc) refl)
]

onto_all-onto_all :
    (b : ℕ) (bs : List ℕ) (r : Option (List ℕ × List ℕ))
    → onto_all (b ∷ []) (onto_all bs r) ≡ onto_all (b ∷ bs) r
unfolding onto_all
onto_all-onto_all b bs none = refl
onto_all-onto_all b bs (some (line, argv)) = refl

split_loop-word :
    (i argc : ℕ) (w rest : List ℕ)
    → IsWord w
    → argc < command_args_max
    → split_loop i argc (w ++ rest) ≡ onto_all w (split_loop (i + length w) argc rest)
unfolding onto_all
split_loop-word i argc [] rest l h =
    let at_end : i + 0 ≡ i = omega arith in
    elim (Option-cases (split_loop i argc rest)) [
      | inl e ↦ rw (at_end, e) refl
      | inr (r, e) ↦ rw (at_end, e) refl
    ]
split_loop-word i argc (b ∷ bs) rest (l, ls) h =
    split_loop-letter i argc b (bs ++ rest) l h
    ∙ ap (onto_all (b ∷ [])) (split_loop-word (suc i) argc bs rest ls h)
    ∙ onto_all-onto_all b bs (split_loop (suc i + length bs) argc rest)
    ∙ ap (λ n. onto_all (b ∷ bs) (split_loop n argc rest)) (omega arith)

-- Behind a separator at `i` that a word follows.
unfoldable after_space : (i : ℕ) → Option (List ℕ × List ℕ) → Option (List ℕ × List ℕ)
after_space i none = none
after_space i (some (line, argv)) = some (0 ∷ line, suc i ∷ argv)

split_loop-space :
    (i argc : ℕ) (w : List ℕ) (ws : List (List ℕ))
    → (split_loop i argc (space ∷ (w ++ tail_of_line ws))) ≡ (
        if ltb (suc argc) command_args_max
        then after_space i (split_loop (suc i) (suc argc) (w ++ tail_of_line ws))
        else none)
unfolding split_loop after_space
split_loop-space i argc w ws =
    let n = next_argc-space argc w ws in
    let rest = w ++ tail_of_line ws in
    let other = ==_ne (suc argc) argc λ e. omega (arith, e) in
    elim (Bool-cases (ltb (suc argc) command_args_max)) [
      | inl e ↦ elim (Option-cases (split_loop (suc i) (suc argc) rest)) [
        | inl f ↦ rw (n, e, f) refl
        | inr ((line, argv), f) ↦ rw (n, e, f) (rw (n, argument_byte, other) refl)
      ]
      | inr e ↦ rw (n, e) refl
    ]

split_loop-tail :
    (i argc : ℕ) (ws : List (List ℕ))
    → All IsWord ws
    → argc < command_args_max
    → split_loop i argc (tail_of_line ws)
      ≡ (if ltb (argc + length ws) command_args_max then some (blanked ws, places i ws) else none)
unfolding split_loop onto_all tail_of_line blanked places next_argc after_space
split_loop-tail i argc [] l h =
    let e : argc + 0 ≡ argc = omega arith in
    rw (e, lt→ltb argc command_args_max h) (rw (argument_byte, ==_self argc) refl)
split_loop-tail i argc (w ∷ ws) (l, ls) h =
    let turn : argc + suc (length ws) ≡ suc argc + length ws = omega arith in
    elim (Bool-cases (ltb (suc argc) command_args_max)) [
      | inl e ↦
          let under = ltb→lt (suc argc) command_args_max e in
          let same =
            split_loop-word (suc i) (suc argc) w (tail_of_line ws) l under
            ∙ ap (onto_all w) (split_loop-tail (suc i + length w) (suc argc) ws ls under) in
          elim (Bool-cases (ltb (suc argc + length ws) command_args_max)) [
            | inl f ↦ rw (split_loop-space i argc w ws, e, same, turn, f) refl
            | inr f ↦ rw (split_loop-space i argc w ws, e, same, turn, f) refl
          ]
      | inr e ↦
          let over =
            le→ltb (suc argc + length ws) command_args_max
              (omega (arith, ltb→le (suc argc) command_args_max e)) in
          rw (split_loop-space i argc w ws, e, turn, over) refl
    ]

c_string-word : (w : List ℕ) (ws : List (List ℕ)) → IsWord w → c_string (w ++ blanked ws) ≡ w
unfolding c_string blanked
c_string-word [] [] l = refl
c_string-word [] (w ∷ ws) l = refl
c_string-word (b ∷ bs) ws (l, ls) = rw l.1 (ap (λ t. b ∷ t) (c_string-word bs ws ls))

strings_at-places :
    (before : List ℕ) (ws : List (List ℕ))
    → All IsWord ws
    → map (string_at (before ++ blanked ws)) (places (length before) ws) ≡ ws
unfolding blanked places string_at
strings_at-places before [] l = refl
strings_at-places before (w ∷ ws) (l, ls) =
    let text = w ++ blanked ws in
    let turn : suc (length before) ≡ length before + 1 = omega arith in
    let word : string_at (before ++ (0 ∷ text)) (suc (length before)) ≡ w =
      rw (turn, drop_line before 0 text) (c_string-word w ws l) in
    let line : (before ++ (0 ∷ w)) ++ blanked ws ≡ before ++ (0 ∷ text) =
      append_assoc before (0 ∷ w) (blanked ws) in
    let place : length (before ++ (0 ∷ w)) ≡ suc (length before) + length w =
      omega (arith, length-append before (0 ∷ w)) in
    let later : map (string_at (before ++ (0 ∷ text))) (places (suc (length before) + length w) ws)
        ≡ ws =
      rw (← line, ← place) (strings_at-places (before ++ (0 ∷ w)) ws ls) in
    rw (word, later) refl

-- Of a line of words, which hold no spaces, newlines and NULs, with one space between two and a newline at the end, command_line takes exactly the words as the command and its arguments when at most four follow the command, and with more it stores behind the end of argv.
pub command_arguments-words :
    (cmd : List ℕ) (ws : List (List ℕ))
    → IsWord cmd
    → All IsWord ws
    → command_arguments (cmd ++ tail_of_line ws)
      ≡ (if ltb (length ws) command_args_max then some (cmd, ws) else none)
unfolding command_arguments onto_all string_at
command_arguments-words cmd ws l ls =
    let some_room : 0 < command_args_max = omega arith in
    let same =
      split_loop-word 0 0 cmd (tail_of_line ws) l some_room
      ∙ ap (onto_all cmd) (split_loop-tail (0 + length cmd) 0 ws ls some_room) in
    let start : 0 + length ws ≡ length ws = omega arith in
    let place : 0 + length cmd ≡ length cmd = omega arith in
    elim (Bool-cases (ltb (length ws) command_args_max)) [
      | inl e ↦
          rw
            (
              command_arguments,
              same,
              start,
              e,
              place,
              c_string-word cmd ws l,
              strings_at-places cmd ws ls,
            )
            refl
      | inr e ↦ rw (command_arguments, same, start, e) refl
    ]
