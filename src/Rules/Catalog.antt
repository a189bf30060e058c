-- ===== src/Rules/Catalog.antt =====
-- internal/rules/catalog.go
use proxy_rule_manager.Common.{
  Bool, true, ◌||◌, Option, none, some, List, [], ◌∷◌, ◌++◌, map, if◌then◌else◌, ◌==◌, any,
}
use proxy_rule_manager.Text.{
  Text, codes, text_beq, trim_space, trim_prefix, trim_suffix, has_suffix,
}
use proxy_rule_manager.Platform.{Platform, to_lower}
use proxy_rule_manager.Model.{domain, domain_suffix, proxy, Rule}
use proxy_rule_manager.Model.Equality.{type_beq}

pub record DomainFamily : Type 0 where
  pub key : Text
  pub folder : Text
  pub remark : Text
  pub domains : List Text

unfoldable pub common_domain_families : List DomainFamily
common_domain_families =
    record {
      key = codes "openai";
      folder = codes "AI / OpenAI";
      remark = codes "OpenAI 常用域名";
      domains =
          codes "openai.com"
          ∷ codes "chatgpt.com"
          ∷ codes "oaistatic.com"
          ∷ codes "oaiusercontent.com"
          ∷ [];
    }
    ∷ record {
      key = codes "github";
      folder = codes "开发 / GitHub";
      remark = codes "GitHub 主站与静态资源域名";
      domains =
          codes "github.com"
          ∷ codes "githubassets.com"
          ∷ codes "githubusercontent.com"
          ∷ codes "github.dev"
          ∷ [];
    }
    ∷ record {
      key = codes "google";
      folder = codes "AI / Google";
      remark = codes "Google 与 Google AI 常用域名";
      domains =
          codes "google.com"
          ∷ codes "google.com.hk"
          ∷ codes "googleapis.com"
          ∷ codes "googleusercontent.com"
          ∷ codes "gstatic.com"
          ∷ codes "ggpht.com"
          ∷ codes "gvt1.com"
          ∷ codes "gvt2.com"
          ∷ [];
    }
    ∷ record {
      key = codes "anthropic";
      folder = codes "AI / Anthropic";
      remark = codes "Anthropic 与 Claude 常用域名";
      domains = codes "anthropic.com" ∷ codes "claude.ai" ∷ [];
    }
    ∷ record {
      key = codes "perplexity";
      folder = codes "AI / Perplexity";
      remark = codes "Perplexity 常用域名";
      domains = codes "perplexity.ai" ∷ codes "pplx.ai" ∷ [];
    }
    ∷ record {
      key = codes "xai";
      folder = codes "AI / xAI";
      remark = codes "xAI 与 Grok 常用域名";
      domains = codes "x.ai" ∷ codes "grok.com" ∷ [];
    }
    ∷ record {
      key = codes "microsoft-connectivity";
      folder = codes "系统 / Microsoft";
      remark = codes "Microsoft 连通性与消息推送域名";
      domains = codes "msftconnecttest.com" ∷ codes "cloudmessaging.edge.microsoft.com" ∷ [];
    }
    ∷ record {
      key = codes "steam";
      folder = codes "游戏平台 / Steam";
      remark = codes "Steam 商店、社区、账号与客户端 Web 域名；下载 CDN 仍保持兜底直连";
      domains =
          codes "steampowered.com"
          ∷ codes "steamcommunity.com"
          ∷ codes "steam-chat.com"
          ∷ codes "steamusercontent.com"
          ∷ codes "steamstatic.com"
          ∷ codes "store.steampowered.com"
          ∷ codes "help.steampowered.com"
          ∷ codes "api.steampowered.com"
          ∷ [];
    }
    ∷ []

-- the literal of `CommonDomainRules`
abbrev pub family_rule : DomainFamily → Text → Rule
family_rule family domain_name = record {
  id = [];
  enabled = true;
  type = domain_suffix;
  value = domain_name;
  target = proxy;
  folder = family.folder;
  remark = family.remark;
}

unfoldable pub family_rules : List DomainFamily → List Rule
family_rules [] = []
family_rules (family ∷ families) = map (family_rule family) family.domains ++ family_rules families

unfoldable pub common_domain_rules : List Rule
unfolding family_rules common_domain_families
common_domain_rules = family_rules common_domain_families

-- The value is the domain or below it.
unfoldable pub in_domain : Text → Text → Bool
in_domain value domain_name = value == domain_name || has_suffix value (b'.' ∷ domain_name)

unfoldable pub find_family : Text → List DomainFamily → Option DomainFamily
unfolding in_domain
find_family value [] = none
find_family value (family ∷ families) =
    let rest = find_family value families in
    if any (in_domain value) family.domains then some family else rest

module _ ⦃p : Platform⦄ where
  -- `cleanHost` of normalize.go
  unfoldable pub clean_host : Text → Text
  clean_host value =
      let lowered = trim_space (to_lower value) in
      let starless = trim_prefix lowered (codes "*.") in
      let dotless = trim_prefix starless (codes ".") in trim_suffix dotless (codes "/")

  unfoldable pub match_domain_family : Text → Option DomainFamily
  unfolding clean_host find_family
  match_domain_family raw =
      let value = clean_host raw in
      if value == [] then none else find_family value common_domain_families

  abbrev pub or_else : Text → Text → Text
  or_else s t = if s == [] then t else s

  -- one sibling in `ExpandRuleSiblings`
  abbrev pub sibling : Rule → DomainFamily → Text → Rule
  sibling rule family domain_name = record rule {
    id = [];
    type = domain_suffix;
    value = domain_name;
    folder = or_else rule.folder family.folder;
    remark = or_else rule.remark family.remark;
  }

  abbrev pub trimmed_labels : Rule → Rule
  trimmed_labels rule = record rule {
    folder = trim_space rule.folder;
    remark = trim_space rule.remark;
  }

  -- the part of `ExpandRuleSiblings` for the two domain types
  unfoldable pub expand_family : Rule → List Rule
  unfolding match_domain_family
  expand_family rule = elim (match_domain_family rule.value) [
    | none ↦ rule ∷ []
    | some family ↦ map (sibling rule family) family.domains
  ]

  unfoldable pub expand_rule_siblings : Rule → List Rule
  unfolding expand_family
  expand_rule_siblings rule =
      let trimmed = trimmed_labels rule in
      if trimmed.type == domain || trimmed.type == domain_suffix
      then expand_family trimmed
      else trimmed ∷ []

  unfoldable pub default_folder_for_rule : Rule → Text
  unfolding match_domain_family
  default_folder_for_rule rule =
      if trim_space rule.folder == []
      then elim (match_domain_family rule.value) [ some family ↦ family.folder | none ↦ [] ]
      else trim_space rule.folder

  unfoldable pub default_remark_for_rule : Rule → Text
  unfolding match_domain_family
  default_remark_for_rule rule =
      if trim_space rule.remark == []
      then elim (match_domain_family rule.value) [ some family ↦ family.remark | none ↦ [] ]
      else trim_space rule.remark
