-- ===== src/Privileged/Validate/Tokens.antt =====
-- Splitting a rule into words, and joining words into a rule.
use rust_panel.Privileged.Action.{iptables_append}
use rust_panel.Prelude.{refl, subst, ◌∙◌, byte_len, ◌≤◌, sym, All-map}
use rust_panel.Prelude.{[]}
use mathlib.Core.List.{append-nil, append_assoc}
use rust_panel.Privileged.Validate.Admissible.{
  IsArg, reject_shell_meta_iff, validate_action_iff, validate_chain_iff,
}
use rust_panel.Privileged.Validate.{
  is_iptables_char, push_tokens, split_from, flush, split_whitespace, tokenize_iptables_rule,
  validate_chain, validate_action, iptables_append,
}
use rust_panel.Prelude.{
  List, Text, any, is_empty, ℕ, ◌∷◌, ◌≡◌, all, false, is_whitespace, ok, true, ◌++◌, arith, ◌↔◌,
  All,
}

-- A word: not empty, and free of white space.
abbrev pub IsWord : Text → Type 0
IsWord w = (is_empty w ≡ false) × (any is_whitespace w ≡ false)

-- words joined by single spaces
abbrev pub join : List Text → Text
join [] = []
join (w ∷ []) = w
join (w ∷ ws) = w ++ b' ' ∷ join ws

split_from-word :
    (cur w s : Text)
    → any is_whitespace w ≡ false
    → split_from cur (w ++ s) ≡ split_from (cur ++ w) s
unfolding split_from
split_from-word cur [] s h = rw append-nil
split_from-word cur (c ∷ w) s h =
    ground (arith, split_from-word (cur ++ c ∷ []) w s, append_assoc cur (c ∷ []) w)

flush-word : (w : Text) (ws : List Text) → is_empty w ≡ false → flush w ws ≡ w ∷ ws
flush-word [] ws h = cc
flush-word (c ∷ w) ws h = refl

split_from-last : (w : Text) → IsWord w → split_from [] w ≡ w ∷ []
unfolding split_from
split_from-last w h =
    let e = split_from-word [] w [] h.1 in
    subst (λ t. split_from [] t ≡ w ∷ []) (append-nil w) (e ∙ flush-word w [] h.0)

split_from-join : (ws : List Text) → All IsWord ws → split_from [] (join ws) ≡ ws
unfolding split_from
split_from-join [] h = refl
split_from-join (w ∷ []) h = split_from-last w h.0
split_from-join (w ∷ v ∷ ws) h =
    split_from-word [] w (b' ' ∷ join (v ∷ ws)) h.0.1
    ∙ ground (arith, flush-word w (v ∷ ws) h.0.0, split_from-join (v ∷ ws) h.1)

iptables_char_no_space : (c : ℕ) → is_iptables_char c ≡ true → is_whitespace c ≡ false
unfolding is_iptables_char
iptables_char_no_space c h = ground arith

no_space : (t : Text) → all is_iptables_char t ≡ true → any is_whitespace t ≡ false
no_space [] e = refl
no_space (c ∷ t) e = ground (arith, iptables_char_no_space c, no_space t)

IsArg-IsWord : (t : Text) → IsArg t → IsWord t
IsArg-IsWord t h = (h.0.nonempty, no_space t h.1)

push_tokens_iff :
    (args parts out : List Text)
    → (push_tokens args parts ≡ ok out) ↔ (All IsArg parts × (out ≡ args ++ parts))
unfolding push_tokens
push_tokens_iff args [] out = ground (arith, append-nil args)
push_tokens_iff args (part ∷ parts) out = ground (
  arith,
  push_tokens_iff (args ++ part ∷ []) parts out,
  reject_shell_meta_iff part,
  append_assoc args (part ∷ []) parts,
)

tokenize_parts :
    (rule : Text) (args : List Text)
    → (tokenize_iptables_rule rule ≡ ok args) ↔ (
        (byte_len rule ≤ 1024)
        × (push_tokens [] (split_whitespace rule) ≡ ok args)
        × (is_empty args ≡ false))
unfolding tokenize_iptables_rule
tokenize_parts rule args = ground arith

-- A rule is accepted with given tokens exactly when it is at most 1024 bytes long, the tokens are its
-- words, there is at least one, and each is free of metacharacters, at most 256 bytes long and made of
-- iptables characters.
pub tokenize_iptables_rule_iff :
    (rule : Text) (args : List Text)
    → (tokenize_iptables_rule rule ≡ ok args) ↔ (
        (byte_len rule ≤ 1024)
        × (args ≡ split_whitespace rule)
        × (is_empty args ≡ false)
        × All IsArg args)
tokenize_iptables_rule_iff rule args = (
  (λ h.
      let (short, pushed, some_args) = (tokenize_parts rule args).0 h in
      let (legal, same) = (push_tokens_iff [] (split_whitespace rule) args).0 pushed in
      (short, same, some_args, subst (All IsArg) (sym same) legal)),
  (λ (short, same, some_args, legal). (tokenize_parts rule args).1 (
    short,
    (push_tokens_iff [] (split_whitespace rule) args).1 (subst (All IsArg) same legal, same),
    some_args,
  )),
)

-- Joining legal arguments by spaces and splitting the rule again gives the same arguments, as long as
-- the rule is at most 1024 bytes long.
pub tokenize-join :
    (args : List Text)
    → is_empty args ≡ false
    → All IsArg args
    → byte_len (join args) ≤ 1024
    → tokenize_iptables_rule (join args) ≡ ok args
unfolding split_whitespace
tokenize-join args some_args legal short =
    (tokenize_iptables_rule_iff (join args) args).1
      (short, sym (split_from-join args (All-map args IsArg-IsWord legal)), some_args, legal)

-- What the tokenizer accepts, the runner accepts: appended to a legal chain the tokens make an action
-- that passes the checks.
pub tokenize-validate :
    (rule chain : Text) (args : List Text)
    → tokenize_iptables_rule rule ≡ ok args
    → validate_chain chain ≡ ok tt
    → validate_action (iptables_append chain args) ≡ ok tt
tokenize-validate rule chain args tokens chained =
    let (short, same, some_args, legal) = (tokenize_iptables_rule_iff rule args).0 tokens in
    (validate_action_iff (iptables_append chain args)).1
      ((validate_chain_iff chain).0 chained, legal)
