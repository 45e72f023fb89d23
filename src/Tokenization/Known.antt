-- ===== src/Tokenization/Known.antt =====
-- The words that the stub of the inference tokenizer knows
-- (src/tokenization/stub_inference_tokenizer.cpp).
use career_coordination_mcp.Prelude.{Str, lit, List, [], ◌∷◌}

abbrev pub known_skills : List Str
known_skills =
    lit "python"
    ∷ lit "java"
    ∷ lit "cpp"
    ∷ lit "c"
    ∷ lit "javascript"
    ∷ lit "typescript"
    ∷ lit "rust"
    ∷ lit "go"
    ∷ lit "sql"
    ∷ lit "docker"
    ∷ lit "kubernetes"
    ∷ lit "aws"
    ∷ lit "gcp"
    ∷ lit "azure"
    ∷ lit "react"
    ∷ lit "angular"
    ∷ lit "vue"
    ∷ lit "django"
    ∷ lit "flask"
    ∷ lit "spring"
    ∷ lit "node"
    ∷ lit "git"
    ∷ lit "ci"
    ∷ lit "cd"
    ∷ lit "terraform"
    ∷ lit "ansible"
    ∷ lit "jenkins"
    ∷ lit "cmake"
    ∷ lit "make"
    ∷ lit "gradle"
    ∷ lit "maven"
    ∷ lit "pytest"
    ∷ lit "junit"
    ∷ lit "testing"
    ∷ lit "tdd"
    ∷ lit "agile"
    ∷ lit "scrum"
    ∷ lit "rest"
    ∷ lit "api"
    ∷ lit "graphql"
    ∷ lit "mongodb"
    ∷ lit "postgresql"
    ∷ lit "mysql"
    ∷ lit "redis"
    ∷ lit "kafka"
    ∷ lit "spark"
    ∷ lit "hadoop"
    ∷ lit "machine"
    ∷ lit "learning"
    ∷ lit "deep"
    ∷ lit "neural"
    ∷ lit "tensorflow"
    ∷ lit "pytorch"
    ∷ lit "scikit"
    ∷ lit "pandas"
    ∷ lit "numpy"
    ∷ []

abbrev pub known_domains : List Str
known_domains =
    lit "backend"
    ∷ lit "frontend"
    ∷ lit "fullstack"
    ∷ lit "devops"
    ∷ lit "infrastructure"
    ∷ lit "security"
    ∷ lit "mobile"
    ∷ lit "web"
    ∷ lit "cloud"
    ∷ lit "distributed"
    ∷ lit "systems"
    ∷ lit "architecture"
    ∷ lit "database"
    ∷ lit "data"
    ∷ lit "engineering"
    ∷ lit "software"
    ∷ lit "platform"
    ∷ lit "network"
    ∷ lit "embedded"
    ∷ lit "performance"
    ∷ lit "scalability"
    ∷ lit "reliability"
    ∷ lit "observability"
    ∷ lit "automation"
    ∷ lit "testing"
    ∷ lit "quality"
    ∷ lit "assurance"
    ∷ lit "integration"
    ∷ lit "deployment"
    ∷ lit "monitoring"
    ∷ lit "analytics"
    ∷ lit "visualization"
    ∷ lit "reporting"
    ∷ lit "optimization"
    ∷ lit "ai"
    ∷ lit "ml"
    ∷ []

abbrev pub known_roles : List Str
known_roles =
    lit "engineer"
    ∷ lit "developer"
    ∷ lit "architect"
    ∷ lit "lead"
    ∷ lit "senior"
    ∷ lit "staff"
    ∷ lit "principal"
    ∷ lit "manager"
    ∷ lit "director"
    ∷ lit "head"
    ∷ lit "vp"
    ∷ lit "cto"
    ∷ lit "technical"
    ∷ lit "software"
    ∷ lit "platform"
    ∷ lit "infrastructure"
    ∷ lit "site"
    ∷ lit "reliability"
    ∷ lit "consultant"
    ∷ lit "analyst"
    ∷ lit "specialist"
    ∷ lit "coordinator"
    ∷ lit "associate"
    ∷ lit "intern"
    ∷ []
