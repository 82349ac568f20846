-- ===== src/Server/Names.antt =====
-- src/net/source/tcp_server.cc: the name of a connection, that is the server's name with the number
-- of the connection behind it. A text is a list of ASCII codes, and `format` is what fmt::format
-- makes of a number with "#{:0>5}".
use m_server.Prelude.{
  ℕ, ◌-◌, ◌≡◌, ◌↔◌, refl, sym, ap, ◌∙◌, List, [], ◌∷◌, ◌++◌, Bool, true, false, ◌&&◌, ◌==◌, ==_iff,
  length, replicate, drop, drop-append_left, arith,
}
use m_server.Prelude.Decimal.{to_string, value_from, value_from-zeros, value_from-to_string}
use m_server.Server.Connections.{Naming}

abbrev pub Text : Type 0
Text = List ℕ

-- Zeros in front, to a width of five.
abbrev pub zero_padded : Text → Text
zero_padded digits = replicate (5 - length digits) 48 ++ digits

-- What the manual of fmt says of this format.
abbrev pub IsFormat : (ℕ → Text) → Type 0
IsFormat format = (n : ℕ) → format n ≡ 35 ∷ zero_padded (to_string n)

pub conn_name : (ℕ → Text) → Text → ℕ → Text
conn_name format name next_conn_id = name ++ format next_conn_id

-- The equality of std::string.
pub same_text : Text → Text → Bool
same_text [] [] = true
same_text [] (d ∷ ds) = false
same_text (c ∷ cs) [] = false
same_text (c ∷ cs) (d ∷ ds) = c == d && same_text cs ds

same_text_iff : (s t : Text) → (same_text s t ≡ true) ↔ (s ≡ t)
unfolding same_text
same_text_iff [] [] = (λ e. refl, λ e. refl)
same_text_iff [] (d ∷ ds) = (λ e. absurd (ground arith), λ e. absurd (ground arith))
same_text_iff (c ∷ cs) [] = (λ e. absurd (ground arith), λ e. absurd (ground arith))
same_text_iff (c ∷ cs) (d ∷ ds) =
    let rest = same_text_iff cs ds in
    let first = ==_iff c d in
    (λ e. ground (arith, e, rest, first), λ e. ground (arith, e, rest, first))

zero_padded_value : (n : ℕ) → value_from 0 (zero_padded (to_string n)) ≡ n
zero_padded_value n =
    value_from-zeros (5 - length (to_string n)) (to_string n) ∙ value_from-to_string n

zero_padded_injective : (m n : ℕ) → zero_padded (to_string m) ≡ zero_padded (to_string n) → m ≡ n
zero_padded_injective m n e = sym (zero_padded_value m) ∙ ap (value_from 0) e ∙ zero_padded_value n

-- Let fmt write a number as its manual says. Then the names of a server's connections are told
-- apart by their numbers, whatever the server's name is.
pub conn_name-Naming :
    (format : ℕ → Text) (name : Text) → IsFormat format → Naming (conn_name format name) same_text
unfolding conn_name
conn_name-Naming format name law = record {
  decides = same_text_iff;
  injective = λ i j e.
      let formats : format i ≡ format j =
        sym (drop-append_left name (format i))
        ∙ ap (drop (length name)) e
        ∙ drop-append_left name (format j) in
      zero_padded_injective i j (ap (drop 1) (sym (law i) ∙ formats ∙ law j));
}
