-- ===== src/Mock/Seed/Templates.antt =====
-- ferr/src/lib/api/mock.ts: the texts of the messages with which the mock starts.
use trokk.Prelude.{List, [], ◌∷◌, ◌++◌}
use trokk.Text.{str}
use trokk.Mock.Seed.{Template, template}

unfoldable pub message_templates : List Template
message_templates =
    template 0 (str "wen lambo ser? 🚀💎🙌") 2
    ∷ template 1
        (str
          "THE CHARTS ARE LITERALLY SCREAMING. WE ARE GOING TO FLIP GOLD. THIS IS THE MOMENT WE'VE BEEN WAITING FOR. ACCUMULATE OR CRY LATER.")
        5
    ∷ template 2
        (str
          "Interesting movement on-chain: a wallet that's been dormant since 2017 just moved 5,000 BTC to an exchange. Historically, this pattern preceded a 15-20% correction within 72 hours in 4 out of 5 instances.")
        8
    ∷ template 3
        (str
          "just aped into a new farm with 420,069% APY. the dev has 3 followers and the contract is unverified. this is financial advice.")
        12
    ∷ template 4
        (str
          "Another day, another '100x opportunity' that's actually just a Ponzi with better UX. The fact that we keep falling for this tells me the efficient market hypothesis is a fever dream.")
        15
    ∷ template 0
        (str "they said buy high sell low\nI said hold my beer\nnow I'm the liquidity\n\nAMA 👇") 20
    ∷ template 1
        (str
          "JUST SAW THE MONTHLY CLOSE. WE ARE ABOVE THE 200 WEEK MOVING AVERAGE. IF YOU'RE NOT BULLISH RIGHT NOW YOU'RE NOT PAYING ATTENTION. ROCKETS AND MOONS PEOPLE. 🚀🚀🚀")
        25
    ∷ template 2
        (str
          "New analysis: exchange inflows have dropped to levels not seen since October 2023. Combined with stablecoin minting at all-time highs, this suggests accumulation rather than distribution. Worth monitoring the next 48 hours.")
        30
    ∷ template 5
        (str
          "The weekly RSI has formed a bullish divergence on the BTC/USD chart, with the MACD crossing above the signal line. Historically, this pattern has preceded a 30%+ rally in 7 out of 9 instances. However, volume confirmation is still lacking.")
        35
    ∷ template 7
        (str "gm ☀"
          ++ 0xfe0f
            ∷ str
                " just minted a new collection: 'Existential Dread in 8-bit'. floor price is 0.1 ETH. each piece comes with a signed screenshot of my terminal. link in bio frens")
        38
    ∷ template 3
        (str
          "update: the 420,069% APY farm just rugged. i lost 14 ETH. BUT i found a new one with 1,000,000% APY. back in the game baby let's go")
        42
    ∷ template 6
        (str
          "BREAKING: Major Asian exchange announces support for new L2 chain. Trading volume expected to increase 300% in first 24 hours. Regulatory filing submitted to 3 jurisdictions simultaneously.")
        45
    ∷ template 0
        (str
          "me in 2020: i don't understand crypto\nme in 2022: i understand crypto\nme in 2024: i understand crypto is a simulation\nme in 2026: i AM the simulation\n\n🧠➰")
        50
    ∷ template 4
        (str
          "I just ran the numbers. If you had invested $1,000 in the top 10 DeFi tokens in 2021, you would now have... $37. Positive expected value my ass.")
        55
    ∷ template 2
        (str
          "Correlation analysis update: ETH/BTC pair showing unusual decoupling from traditional markets. S&P 500 correlation dropped to 0.12 from 0.67 over past 30 days. This is the most significant divergence since the Merge.")
        60
    ∷ template 1
        (str
          "PSA: IF YOU SELL NOW YOU'RE SELLING AT THE BOTTOM. THIS IS EXACTLY WHAT THE WHALES WANT YOU TO DO. HOLD THE LINE. WE'VE SEEN THIS PATTERN 47 TIMES BEFORE. IT ALWAYS GOES UP AFTER THE PAIN.")
        65
    ∷ template 5
        (str
          "BTC has been consolidating in a symmetrical triangle pattern for 14 days. Breakout direction will likely determine the trend for the next quarter. Key levels: support at 58,200, resistance at 72,400. RSI neutral at 52.")
        70
    ∷ template 7
        (str
          "hot take: AI generated art is just prompt engineering with extra steps. real artists manipulate tensorflow directly. i have transcended the GUI. i think in latent space now 🌀🎨")
        75
    ∷ template 0
        (str
          "my portfolio:\n📈 -100% (rug pulled)\n📈 -100% (another rug)\n📈 +2% (actually a bug in the UI)\n\nstill bullish 💪")
        80
    ∷ template 3
        (str
          "new alpha leak: a tier-1 VC is about to announce a massive investment in a privacy-focused L2. i can't name names but think 'zero knowledge' and 'top 5 exchange listing'. NFA DYOR.")
        85
    ∷ template 6
        (str
          "Regulatory roundup: 3 countries proposed new stablecoin frameworks this week. 2 central banks announced CBDC pilots expanding to retail. 1 major bank launched institutional custody. The regulatory landscape is shifting faster than most realize.")
        90
    ∷ []
