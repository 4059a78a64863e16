-- ===== src/Dlp/Patterns.antt =====
-- The tables of internal/compliance/handlers/security/dlp_types.go: the expressions that a payload is
-- scanned for, as they are written, with a confidence in hundredths.
use aocs_compliance_svc.Common.{ℕ, List, [], ◌∷◌}
use aocs_compliance_svc.Text.{Text, codes}

pub record PiiPattern : Type 0 where
  pub pii_type : Text
  pub regex : Text
  pub confidence : ℕ

pub record CodePattern : Type 0 where
  pub code_type : Text
  pub regex : Text
  pub language : Text
  pub confidence : ℕ

unfoldable pub pii_patterns : List PiiPattern
pii_patterns =
    record {
      pii_type = codes "email";
      regex = codes "[a-zA-Z0-9._%+\\-]+@[a-zA-Z0-9.\\-]+\\.[a-zA-Z]{2,}";
      confidence = 95;
    }
    ∷ record {
      pii_type = codes "phone_us";
      regex = codes "(?:\\+1[-.\\s]?)?\\(?[2-9]\\d{2}\\)?[-.\\s]?\\d{3}[-.\\s]?\\d{4}";
      confidence = 85;
    }
    ∷ record {
      pii_type = codes "ssn";
      regex = codes "\\b\\d{3}[-.\\s]?\\d{2}[-.\\s]?\\d{4}\\b";
      confidence = 90;
    }
    ∷ record {
      pii_type = codes "credit_card";
      regex =
          codes
            "\\b(?:4[0-9]{12}(?:[0-9]{3})?|5[1-5][0-9]{14}|3[47][0-9]{13}|6(?:011|5[0-9]{2})[0-9]{12})\\b";
      confidence = 92;
    }
    ∷ record {
      pii_type = codes "ip_address";
      regex =
          codes
            "\\b(?:25[0-5]|2[0-4]\\d|[01]?\\d\\d?)\\.(?:25[0-5]|2[0-4]\\d|[01]?\\d\\d?)\\.(?:25[0-5]|2[0-4]\\d|[01]?\\d\\d?)\\.(?:25[0-5]|2[0-4]\\d|[01]?\\d\\d?)\\b";
      confidence = 75;
    }
    ∷ record {
      pii_type = codes "iban";
      regex = codes "\\b[A-Z]{2}\\d{2}\\s?[\\dA-Z]{4}\\s?[\\dA-Z]{4}\\s?[\\dA-Z]{4}";
      confidence = 88;
    }
    ∷ []

unfoldable pub code_patterns : List CodePattern
code_patterns =
    record {
      code_type = codes "aws_access_key";
      regex = codes "(?:AKIA|ASIA)[A-Z0-9]{16}";
      language = codes "aws";
      confidence = 98;
    }
    ∷ record {
      code_type = codes "openai_key";
      regex = codes "sk-[A-Za-z0-9]{48,}";
      language = codes "openai";
      confidence = 98;
    }
    ∷ record {
      code_type = codes "github_token";
      regex = codes "gh[pousr]_[A-Za-z0-9_]{36,}";
      language = codes "github";
      confidence = 98;
    }
    ∷ record {
      code_type = codes "private_key";
      regex = codes "-----BEGIN\\s+(?:RSA\\s+)?PRIVATE\\s+KEY-----";
      language = codes "pem";
      confidence = 99;
    }
    ∷ record {
      code_type = codes "api_key";
      regex =
          codes
            "(?i)(?:api[_-]?key|apikey|token|secret|password)\\s*[:=]\\s*['\"]?[A-Za-z0-9_\\-]{20,}['\"]?";
      language = codes "generic";
      confidence = 85;
    }
    ∷ record {
      code_type = codes "sql_query";
      regex =
          codes
            "(?i)(?:SELECT|INSERT|UPDATE|DELETE|DROP|ALTER|CREATE)\\s+(?:INTO|FROM|TABLE|DATABASE|INDEX)\\s+[\\w.'\\\"`]+";
      language = codes "sql";
      confidence = 80;
    }
    ∷ record {
      code_type = codes "connection_string";
      regex = codes "(?:postgres|mysql|mongodb|redis|amqp)://[^\\s]+:[^\\s]+@[^\\s]+";
      language = codes "connection";
      confidence = 95;
    }
    ∷ record {
      code_type = codes "jwt_token";
      regex = codes "eyJ[A-Za-z0-9_-]{10,}\\.eyJ[A-Za-z0-9_-]{10,}\\.[A-Za-z0-9_-]{10,}";
      language = codes "jwt";
      confidence = 95;
    }
    ∷ []
