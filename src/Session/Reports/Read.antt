-- ===== src/Session/Reports/Read.antt =====
-- What a reader of the texts that a session sends finds in them.
use operation_front_line.Common.{
  ℕ, ◌≡◌, ◌≢◌, ◌<◌, ◌^◌, refl, ap, sym, ◌∙◌, ne→==, Bool, true, false, List, [], ◌∷◌, ◌++◌,
  if◌then◌else◌, ℤ, arith,
}
use operation_front_line.Arma.{
  ArmaData, string, signed, unsigned, array, Elements, nil, cons, Platform, ok,
}
use operation_front_line.Arma.Numbers.RoundTrip.{FitsSigned}
use operation_front_line.Arma.Parser.{parse_arma_data}
use operation_front_line.Arma.Parser.RoundTrip.{parse_arma_data-deparse}
use operation_front_line.Arma.Parser.Scalars.{Each, IsQuotable}
use operation_front_line.Arma.Printer.{deparse}
use operation_front_line.Arma.Printer.Printable.{IsPrintable, AllPrintable, deparse-array}
use operation_front_line.Bans.{OpflAccount, Login}
use operation_front_line.Session.Reports.{
  account_fields, c_str, account_text, cleanup_text, crash_message, out_after_login,
}

-- A name that a message can carry.
abbrev pub IsName : List ℕ → Type 0
IsName name = (name ≢ []) × Each IsQuotable name

-- The name has no NUL, at which `c_str` ends.
abbrev pub IsCString : List ℕ → Type 0
IsCString = Each (λ c. c ≢ 0)

-- The numbers of an account are of their type, by their fields and as a list.
abbrev pub AccountFits : OpflAccount → Type 0
AccountFits act =
    (FitsSigned act.second × FitsSigned act.minute × FitsSigned act.hour)
    × (FitsSigned act.day × FitsSigned act.month × FitsSigned act.year)
    × (FitsSigned act.left
        × FitsSigned act.chickens
        × FitsSigned act.kills
        × FitsSigned act.matches)
    × (FitsSigned act.wins × FitsSigned act.losses × FitsSigned act.rank × FitsSigned act.level)

abbrev pub AllFit : List ℤ → Type 0
AllFit [] = Unit {0}
AllFit (z ∷ zs) = FitsSigned z × AllFit zs

fields-AllFit : (act : OpflAccount) → AccountFits act → AllFit (account_fields act)
fields-AllFit act ((se, mi, ho), (da, mo, ye), (le, ch, ki, ma), (wi, lo, ra, lv)) =
    (ra, (lv, (ma, (wi, (lo, (ki, (ch, (le, (ye, (mo, (da, (ho, (mi, (se, tt))))))))))))))

c_str-whole : (s : List ℕ) → IsCString s → c_str s ≡ s
c_str-whole [] h = refl
c_str-whole (c ∷ s) (h, hs) = rw (ne→== h) (ap (λ t. c ∷ t) (c_str-whole s hs))

module _ {F : Type 0} where
  abbrev signed_elements : List ℤ → Elements F → Elements F
  signed_elements [] els = els
  signed_elements (z ∷ zs) els = cons (signed z) (signed_elements zs els)

  -- What the two texts say.
  abbrev pub account_data : List ℕ → Login → ArmaData F
  account_data act_name l =
      let act = l.act in
      array (
        cons (string act_name) (
          cons (signed act.rank) (
            cons (signed act.level) (
              cons (signed act.matches) (
                cons (signed act.wins) (
                  cons (signed act.losses) (
                    cons (signed act.kills) (
                      cons (signed act.chickens) (
                        cons (signed act.left) (
                          cons (signed act.year) (
                            cons (signed act.month) (
                              cons (signed act.day) (
                                cons (signed act.hour) (
                                  cons (signed act.minute) (
                                    cons (signed act.second) (
                                      cons (unsigned (if l.banned then 1 else 0))
                                        nil))))))))))))))))

  abbrev pub cleanup_data : List ℕ → List ℕ → List ℕ → ArmaData F
  cleanup_data input_name output_name act_name =
      array (cons (string input_name) (cons (string output_name) (cons (string act_name) nil)))

  module _ (platform : Platform F) where
    signed_elements-AllPrintable :
        (zs : List ℤ) (els : Elements F)
        → AllFit zs
        → AllPrintable platform els
        → AllPrintable platform (signed_elements zs els)
    signed_elements-AllPrintable [] els h k = k
    signed_elements-AllPrintable (z ∷ zs) els (h, hs) k =
        (h, signed_elements-AllPrintable zs els hs k)

    flag_fits : (b : Bool) → (if b then 1 else 0) < 2 ^ 64
    flag_fits true = omega arith
    flag_fits false = omega arith

    account_data-IsPrintable :
        (act_name : List ℕ) (l : Login)
        → IsName act_name
        → AllFit (account_fields l.act)
        → IsPrintable platform (account_data act_name l)
    account_data-IsPrintable act_name l named fit = (
      named,
      signed_elements-AllPrintable (account_fields l.act)
          (cons (unsigned (if l.banned then 1 else 0)) nil) fit (flag_fits l.banned, tt),
    )

    account_text-eq :
        (act_name : List ℕ) (l : Login)
        → IsCString act_name
        → IsPrintable platform (account_data act_name l)
        → account_text act_name l ≡ deparse platform (account_data act_name l)
    unfolding account_text deparse
    account_text-eq act_name l whole (named, all) = rw (c_str-whole act_name whole) (
        sym (
          deparse-array platform (string act_name)
            (signed_elements (account_fields l.act)
              (cons (unsigned (if l.banned then 1 else 0)) nil))
            named all))

    cleanup_text-eq :
        (input_name output_name act_name : List ℕ)
        → IsName input_name
        → IsName output_name
        → IsName act_name
        → cleanup_text input_name output_name act_name
          ≡ deparse platform (cleanup_data input_name output_name act_name)
    unfolding cleanup_text deparse
    cleanup_text-eq input_name output_name act_name h k m = sym (
        deparse-array platform (string input_name)
          (cons (string output_name) (cons (string act_name) nil)) h (k, (m, tt)))

    pub account_text-read :
        (act_name : List ℕ) (l : Login)
        → IsName act_name
        → IsCString act_name
        → AccountFits l.act
        → parse_arma_data platform (account_text act_name l) ≡ ok (account_data act_name l)
    account_text-read act_name l named whole fit =
        let h = account_data-IsPrintable act_name l named (fields-AllFit l.act fit) in
        ap (parse_arma_data platform) (account_text-eq act_name l whole h)
        ∙ parse_arma_data-deparse platform (account_data act_name l) h

    pub cleanup_text-read :
        (input_name output_name act_name : List ℕ)
        → IsName input_name
        → IsName output_name
        → IsName act_name
        → parse_arma_data platform (cleanup_text input_name output_name act_name)
          ≡ ok (cleanup_data input_name output_name act_name)
    cleanup_text-read input_name output_name act_name h k m =
        ap (parse_arma_data platform) (cleanup_text-eq input_name output_name act_name h k m)
        ∙ parse_arma_data-deparse platform (cleanup_data input_name output_name act_name)
            (h, (k, (m, tt)))

    -- A session that has not begun sends the text for the clean-up alone.
    crash_message-refused :
        (input_name output_name act_name : List ℕ) (l : Login)
        → l.stable ≡ false
        → crash_message input_name output_name act_name l
          ≡ cleanup_text input_name output_name act_name
    unfolding crash_message out_after_login
    crash_message-refused input_name output_name act_name l off =
        ap
          (λ b.
            (if b then account_text act_name l else [])
            ++ cleanup_text input_name output_name act_name)
          off
