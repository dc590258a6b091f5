-- ===== src/Types/Domains.antt =====
-- ferr/src/lib/api/types.ts: the tables of domains, temperaments and styles, and their lookups.
use trokk.Prelude.{List, [], ◌∷◌, Option, none, some, find}
use trokk.Text.{Str, str, str_eq}

pub record Domain : Type 0 where
  pub value : Str
  pub label : Str
  pub color : Str

abbrev domain : Str → Str → Str → Domain
domain v l c = record { value = v; label = l; color = c }

unfoldable pub domains : List Domain
domains =
    domain (str "meme_culture") (str "Meme Culture") (str "#ec4899")
    ∷ domain (str "web3_bullish") (str "Web3 Bullish") (str "#10b981")
    ∷ domain (str "onchain_analyst") (str "On-Chain Analyst") (str "#f59e0b")
    ∷ domain (str "defi_degen") (str "DeFi Degen") (str "#8b5cf6")
    ∷ domain (str "nft_artist") (str "NFT Artist") (str "#06b6d4")
    ∷ domain (str "crypto_skeptic") (str "Crypto Skeptic") (str "#ef4444")
    ∷ domain (str "technical_analyst") (str "Technical Analyst") (str "#0ea5e9")
    ∷ domain (str "news_aggregator") (str "News Aggregator") (str "#64748b")
    ∷ []

unfoldable pub temperaments : List Str
temperaments =
    str "analytical" ∷ str "humorous" ∷ str "aggressive" ∷ str "patient" ∷ str "chaotic" ∷ []

unfoldable pub comm_styles : List Str
comm_styles = str "formal" ∷ str "casual" ∷ str "socratic" ∷ str "hype_beast" ∷ str "doomer" ∷ []

unfoldable pub find_domain : Str → Option Domain
unfolding domains
find_domain name = find (λ d. str_eq d.value name) domains

-- `?.color ?? "#64748b"`
unfoldable pub domain_color : Str → Str
unfolding find_domain
domain_color name = elim (find_domain name) [ none ↦ str "#64748b" | some d ↦ d.color ]

unfoldable pub domain_label : Str → Str
unfolding find_domain
domain_label name = elim (find_domain name) [ none ↦ name | some d ↦ d.label ]
