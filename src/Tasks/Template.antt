-- ===== src/Tasks/Template.antt =====
-- src/tasks/email_task_type: the emails of the tracker's template, and how the content of a task
-- becomes an email. Rendering the HTML is a parameter.
use retrack.Prelude.{String, Option, some, List, [], ◌∷◌, map_option}
use retrack.Types.{Bytes}
use retrack.Tasks.Task.{
  Checked, changed, failed, Email, EmailAttachment, EmailTemplate, tracker_changes, EmailContent,
  custom, template,
}
use Prim.Native.String.{◌++◌}

pub record Templates : Type 0 where
  -- the text of `config.public_url`
  pub public_url : String
  -- `templates.render` of a template's name and the fields of its data
  pub render : String → List (String × String) → Option String
  -- RETRACK_LOGO_BYTES, an asset
  pub retrack_logo_bytes : Bytes

-- Email::html_with_attachments
unfoldable pub html_with_attachments : String → String → String → List EmailAttachment → Email
html_with_attachments subject text html attachments = record {
  subject = subject;
  text = text;
  html = some html;
  attachments = some attachments;
}

-- EmailAttachment::inline
unfoldable pub inline : String → String → Bytes → EmailAttachment
inline id content_type content = record {
  inline_id = id;
  content_type = content_type;
  content = content;
}

module _ (templates : Templates) where
  abbrev pub back_link : String
  back_link = templates.public_url ++ "ws/web_scraping__content"

  unfoldable pub subject_of : String → Checked → String
  subject_of tracker_name (changed content) =
      "[Retrack] Change detected: \"" ++ tracker_name ++ "\""
  subject_of tracker_name (failed error_message) =
      "[Retrack] Check failed: \"" ++ tracker_name ++ "\""

  unfoldable pub text_of : String → Checked → String
  text_of tracker_name (changed content) =
      "\"" ++ tracker_name ++ "\" tracker detected content changes. Visit " ++ back_link
      ++ " to learn more."
  text_of tracker_name (failed error_message) =
      "\"" ++ tracker_name
      ++ "\" tracker failed to check for content changes due to the following error: "
      ++ error_message ++ ". Visit " ++ back_link ++ " to learn more."

  unfoldable pub html_of : String → Checked → Option String
  html_of tracker_name (changed content) = templates.render "tracker_changes_email" (
      ("tracker_name", tracker_name)
      ∷ ("content", content)
      ∷ ("back_link", back_link)
      ∷ ("home_link", templates.public_url)
      ∷ [])
  html_of tracker_name (failed error_message) = templates.render "tracker_changes_error_email" (
      ("tracker_name", tracker_name)
      ∷ ("error_message", error_message)
      ∷ ("back_link", back_link)
      ∷ ("home_link", templates.public_url)
      ∷ [])

  abbrev pub retrack_logo : EmailAttachment
  unfolding inline
  retrack_logo = inline "retrack-logo" "image/png" templates.retrack_logo_bytes

  -- EmailTemplate::tracker_changes
  unfoldable pub tracker_changes_email : String → Checked → Option Email
  tracker_changes_email tracker_name content =
      map_option
        (λ html.
          html_with_attachments (subject_of tracker_name content) (text_of tracker_name content)
            html (retrack_logo ∷ []))
        (html_of tracker_name content)

  -- EmailTemplate::compile_to_email
  unfoldable pub compile_to_email : EmailTemplate → Option Email
  compile_to_email (tracker_changes tracker_name content) =
      tracker_changes_email tracker_name content

  -- EmailContent::into_email
  unfoldable pub into_email : EmailContent → Option Email
  into_email (custom e) = some e
  into_email (template t) = compile_to_email t
