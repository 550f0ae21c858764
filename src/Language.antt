-- ===== src/Language.antt =====
-- The source languages of src/debugger.c: their names, and which of them have expressions. A name is the list of
-- its characters; `tolower` is that of the C locale.
use macos_c_debugger_arm.Prelude.{
  ℕ, ◌+◌, ◌≡◌, refl, Bool, true, false, ◌&&◌, Option, none, some, List, [], ◌∷◌, ◌==◌, leb,
  if◌then◌else◌,
}

pub data Language : Type 0 where
  lang_auto c cxx objc fortran pascal ada modula2 java go rust assembly : Language

abbrev pub tolower : ℕ → ℕ
tolower a = if leb 65 a && leb a 90 then a + 32 else a

unfoldable pub str_ieq : List ℕ → List ℕ → Bool
str_ieq [] [] = true
str_ieq [] (b ∷ bs) = false
str_ieq (a ∷ rest) [] = false
str_ieq (a ∷ rest) (b ∷ bs) = tolower a == tolower b && str_ieq rest bs

unfoldable pub language_name : Language → List ℕ
language_name lang_auto = 97 ∷ 117 ∷ 116 ∷ 111 ∷ []
language_name c = 99 ∷ []
language_name cxx = 99 ∷ 43 ∷ 43 ∷ []
language_name objc = 111 ∷ 98 ∷ 106 ∷ 101 ∷ 99 ∷ 116 ∷ 105 ∷ 118 ∷ 101 ∷ 45 ∷ 99 ∷ []
language_name fortran = 102 ∷ 111 ∷ 114 ∷ 116 ∷ 114 ∷ 97 ∷ 110 ∷ []
language_name pascal = 112 ∷ 97 ∷ 115 ∷ 99 ∷ 97 ∷ 108 ∷ []
language_name ada = 97 ∷ 100 ∷ 97 ∷ []
language_name modula2 = 109 ∷ 111 ∷ 100 ∷ 117 ∷ 108 ∷ 97 ∷ 45 ∷ 50 ∷ []
language_name java = 106 ∷ 97 ∷ 118 ∷ 97 ∷ []
language_name go = 103 ∷ 111 ∷ []
language_name rust = 114 ∷ 117 ∷ 115 ∷ 116 ∷ []
language_name assembly = 97 ∷ 115 ∷ 115 ∷ 101 ∷ 109 ∷ 98 ∷ 108 ∷ 121 ∷ []

unfoldable pub aliases : List (List ℕ × Language)
aliases =
    (97 ∷ 117 ∷ 116 ∷ 111 ∷ [], lang_auto)
    ∷ (99 ∷ [], c)
    ∷ (99 ∷ 43 ∷ 43 ∷ [], cxx)
    ∷ (99 ∷ 112 ∷ 112 ∷ [], cxx)
    ∷ (99 ∷ 120 ∷ 120 ∷ [], cxx)
    ∷ (111 ∷ 98 ∷ 106 ∷ 101 ∷ 99 ∷ 116 ∷ 105 ∷ 118 ∷ 101 ∷ 45 ∷ 99 ∷ [], objc)
    ∷ (111 ∷ 98 ∷ 106 ∷ 99 ∷ [], objc)
    ∷ (102 ∷ 111 ∷ 114 ∷ 116 ∷ 114 ∷ 97 ∷ 110 ∷ [], fortran)
    ∷ (112 ∷ 97 ∷ 115 ∷ 99 ∷ 97 ∷ 108 ∷ [], pascal)
    ∷ (97 ∷ 100 ∷ 97 ∷ [], ada)
    ∷ (109 ∷ 111 ∷ 100 ∷ 117 ∷ 108 ∷ 97 ∷ 45 ∷ 50 ∷ [], modula2)
    ∷ (109 ∷ 111 ∷ 100 ∷ 117 ∷ 108 ∷ 97 ∷ 50 ∷ [], modula2)
    ∷ (106 ∷ 97 ∷ 118 ∷ 97 ∷ [], java)
    ∷ (103 ∷ 111 ∷ [], go)
    ∷ (114 ∷ 117 ∷ 115 ∷ 116 ∷ [], rust)
    ∷ (97 ∷ 115 ∷ 115 ∷ 101 ∷ 109 ∷ 98 ∷ 108 ∷ 121 ∷ [], assembly)
    ∷ (97 ∷ 115 ∷ 109 ∷ [], assembly)
    ∷ []

unfoldable pub find_alias : List ℕ → List (List ℕ × Language) → Option Language
unfolding str_ieq
find_alias name [] = none
find_alias name ((alias, lang) ∷ rest) =
    if str_ieq name alias then some lang else find_alias name rest

unfoldable pub language_parse : List ℕ → Option Language
unfolding find_alias aliases
language_parse [] = none
language_parse (a ∷ rest) = find_alias (a ∷ rest) aliases

unfoldable pub language_effective : Language → Language
language_effective lang_auto = c
language_effective lang = lang

unfoldable pub language_supports_expr : Language → Bool
language_supports_expr lang_auto = true
language_supports_expr c = true
language_supports_expr cxx = true
language_supports_expr objc = true
language_supports_expr lang = false

unfoldable pub language_check_expr : Language → Bool
unfolding language_effective language_supports_expr
language_check_expr lang = language_supports_expr (language_effective lang)

-- Every language is found again by its name.
language_parse-language_name : (lang : Language) → language_parse (language_name lang) ≡ some lang
unfolding language_parse language_name find_alias aliases str_ieq
language_parse-language_name lang_auto = refl
language_parse-language_name c = refl
language_parse-language_name cxx = refl
language_parse-language_name objc = refl
language_parse-language_name fortran = refl
language_parse-language_name pascal = refl
language_parse-language_name ada = refl
language_parse-language_name modula2 = refl
language_parse-language_name java = refl
language_parse-language_name go = refl
language_parse-language_name rust = refl
language_parse-language_name assembly = refl
