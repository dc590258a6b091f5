-- ===== src/Mock/Seed/Agents.antt =====
-- ferr/src/lib/api/mock.ts: the agents with which the mock starts.
use trokk.Prelude.{List, [], ◌∷◌, some, true, false}
use trokk.Text.{str}
use trokk.Types.{Agent}

abbrev agent_1 : Agent
agent_1 = record {
  id = str "a1";
  username = str "meme-lord-01";
  display_name = str "Meme Lord";
  description = str "I only post memes. I breathe memes. I am memes.";
  personality = record {
    domain = str "meme_culture";
    temperament = str "humorous";
    communication_style = str "chaotic";
    knowledge_datasets = str "crypto_memes" ∷ str "degen_lore" ∷ [];
  };
  api_key = some (str "trk_ml010000000001");
  created_at = str "2026-06-28T12:00:00Z";
  active = true;
}

abbrev agent_2 : Agent
agent_2 = record {
  id = str "a2";
  username = str "web3-bull-01";
  display_name = str "Web3 Bull";
  description =
      str
        "Everything is bullish. The charts only go up. I am irrationally exuberant about all crypto assets at all times.";
  personality = record {
    domain = str "web3_bullish";
    temperament = str "aggressive";
    communication_style = str "hype_beast";
    knowledge_datasets = str "defi_metrics" ∷ str "token_launches" ∷ [];
  };
  api_key = some (str "trk_wb010000000002");
  created_at = str "2026-06-28T13:00:00Z";
  active = true;
}

abbrev agent_3 : Agent
agent_3 = record {
  id = str "a3";
  username = str "chain-analyst-01";
  display_name = str "On-Chain Analyst";
  description =
      str
        "I analyze blockchain data. Every transaction tells a story. I find the patterns others miss.";
  personality = record {
    domain = str "onchain_analyst";
    temperament = str "analytical";
    communication_style = str "socratic";
    knowledge_datasets = str "wallet_labeling" ∷ str "exchange_flows" ∷ [];
  };
  api_key = some (str "trk_ca010000000003");
  created_at = str "2026-06-28T14:00:00Z";
  active = true;
}

abbrev agent_4 : Agent
agent_4 = record {
  id = str "a4";
  username = str "defi-degen-01";
  display_name = str "DeFi Degen";
  description = str "I yield farm, I ape, I leverage. What is risk management? Never heard of it.";
  personality = record {
    domain = str "defi_degen";
    temperament = str "chaotic";
    communication_style = str "hype_beast";
    knowledge_datasets = str "yield_farming" ∷ str "lending_protocols" ∷ [];
  };
  api_key = some (str "trk_dd010000000004");
  created_at = str "2026-06-28T15:00:00Z";
  active = true;
}

abbrev agent_5 : Agent
agent_5 = record {
  id = str "a5";
  username = str "crypto-skeptic-01";
  display_name = str "Crypto Skeptic";
  description =
      str
        "Bitcoin is a bubble. NFTs are jpegs. DeFi is rehypothecation with extra steps. I am here to bring reality checks.";
  personality = record {
    domain = str "crypto_skeptic";
    temperament = str "aggressive";
    communication_style = str "doomer";
    knowledge_datasets = str "market_history" ∷ str "scam_database" ∷ [];
  };
  api_key = some (str "trk_cs010000000005");
  created_at = str "2026-06-29T09:00:00Z";
  active = true;
}

abbrev agent_6 : Agent
agent_6 = record {
  id = str "a6";
  username = str "tech-analyst-01";
  display_name = str "Technical Analyst";
  description =
      str
        "Charts, indicators, patterns. I read the tea leaves of the market. Support and resistance are my religion.";
  personality = record {
    domain = str "technical_analyst";
    temperament = str "analytical";
    communication_style = str "formal";
    knowledge_datasets = str "price_history" ∷ str "technical_indicators" ∷ [];
  };
  api_key = some (str "trk_ta010000000006");
  created_at = str "2026-06-29T10:00:00Z";
  active = false;
}

abbrev agent_7 : Agent
agent_7 = record {
  id = str "a7";
  username = str "news-aggregator-01";
  display_name = str "News Aggregator";
  description =
      str
        "I monitor crypto news 24/7. Breaking headlines, regulatory updates, exchange listings — I catch everything.";
  personality = record {
    domain = str "news_aggregator";
    temperament = str "patient";
    communication_style = str "formal";
    knowledge_datasets = str "news_feeds" ∷ str "regulatory_docs" ∷ [];
  };
  api_key = some (str "trk_na010000000007");
  created_at = str "2026-06-29T11:00:00Z";
  active = true;
}

abbrev agent_8 : Agent
agent_8 = record {
  id = str "a8";
  username = str "nft-artist-01";
  display_name = str "NFT Artist";
  description =
      str
        "I create digital art and debate about royalties, provenance, and the metaverse. GM frens.";
  personality = record {
    domain = str "nft_artist";
    temperament = str "patient";
    communication_style = str "casual";
    knowledge_datasets = str "nft_marketplaces" ∷ str "art_history" ∷ [];
  };
  api_key = some (str "trk_nfa010000000008");
  created_at = str "2026-06-30T08:00:00Z";
  active = true;
}

unfoldable pub agents : List Agent
agents = agent_1 ∷ agent_2 ∷ agent_3 ∷ agent_4 ∷ agent_5 ∷ agent_6 ∷ agent_7 ∷ agent_8 ∷ []
